-- ===== src/News.antt =====
-- pkg/galwar/news.go: the durable news of each player.
pub mod Caps
pub mod Delivery
mod Tests
use galwar.Base.{
  ℕ, zero, suc, ◌+◌, ◌-◌, Bool, true, false, not, ◌&&◌, Option, none, some, List, [], ◌∷◌, ◌++◌,
  ◌==◌, ltb, length, drop, if◌then◌else◌,
}
use galwar.Base.Int.{ℤ, ltb_ℤ}
use galwar.Player.{is_npc}
use galwar.Universe.{Universe, NewsItem, Notice, get_by_id, mark_dirty}

abbrev pub max_news_items : ℕ
max_news_items = 2000

abbrev pub max_news_per_player : ℕ
max_news_per_player = 50

-- The count of a player's items.
pub count : ℕ → List NewsItem → ℕ
count id [] = 0
count id (n ∷ ns) = if n.player == id then suc (count id ns) else count id ns

-- Drops the first `k` items of a player.
pub drop_oldest : ℕ → ℕ → List NewsItem → List NewsItem
drop_oldest k id [] = []
drop_oldest k id (n ∷ ns) =
    if ltb 0 k && n.player == id then drop_oldest (k - 1) id ns else n ∷ drop_oldest k id ns

-- The two caps, on a list that has just grown.
pub trim : ℕ → List NewsItem → List NewsItem
trim id ns =
    let kept = drop_oldest (count id ns - max_news_per_player) id ns in
    drop (length kept - max_news_items) kept

pub post : ℕ → ℤ → Notice → List NewsItem → List NewsItem
unfolding trim
post id now msg ns =
    trim id (ns ++ (record { player = id; at = now; msg = msg; delivered = false } ∷ []))

-- `GetById(id) == nil || IsNPC()`
pub unread : ℕ → Universe → Bool
unread id u = elim (get_by_id id u.players) [ none ↦ true | some p ↦ is_npc p ]

unfoldable pub add_news : ℕ → ℤ → Notice → Universe → Universe
unfolding unread post
add_news id now msg u =
    if unread id u then u else mark_dirty (record u { news = post id now msg u.news })

abbrev waiting : ℕ → NewsItem → Bool
waiting id n = n.player == id && not n.delivered

pub undelivered : ℕ → List NewsItem → List Notice
undelivered id [] = []
undelivered id (n ∷ ns) = if waiting id n then n.msg ∷ undelivered id ns else undelivered id ns

pub deliver : ℕ → List NewsItem → List NewsItem
deliver id [] = []
deliver id (n ∷ ns) = (if waiting id n then record n { delivered = true } else n) ∷ deliver id ns

unfoldable pub take_news : ℕ → Universe → List Notice × Universe
take_news id u =
    let msgs = undelivered id u.news in
    let read = record u { news = deliver id u.news } in
    (msgs, if ltb 0 (length msgs) then mark_dirty read else read)

-- `trimNews`
pub trim_news_list : ℤ → List NewsItem → List NewsItem
trim_news_list cutoff [] = []
trim_news_list cutoff (n ∷ ns) =
    if n.delivered && ltb_ℤ n.at cutoff
    then trim_news_list cutoff ns
    else n ∷ trim_news_list cutoff ns

unfoldable pub trim_news : ℤ → Universe → Universe
trim_news cutoff u = record u { news = trim_news_list cutoff u.news }
