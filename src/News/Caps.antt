-- ===== src/News/Caps.antt =====
-- The bounds that pkg/galwar/news.go promises.
use galwar.Base.{
  ℕ, zero, suc, ◌+◌, ◌-◌, ◌≤◌, ◌≡◌, refl, inl, inr, ◌≢◌, false, List, [], ◌∷◌, ◌++◌, ◌==◌, length,
  drop, length-drop, Bool-cases, ==_iff, arith,
}
use galwar.Base.Int.{ℤ}
use galwar.Universe.{Universe, NewsItem, Notice}
use galwar.News.{
  count, drop_oldest, trim, post, add_news, unread, max_news_items, max_news_per_player,
}

count-drop_oldest :
    (k id : ℕ) (ns : List NewsItem) → count id (drop_oldest k id ns) ≡ count id ns - k
unfolding count drop_oldest
count-drop_oldest k id [] = omega arith
count-drop_oldest k id (n ∷ ns) =
    ground (arith, count-drop_oldest k id ns, count-drop_oldest (k - 1) id ns)

count-drop_oldest_ne :
    (k id other : ℕ) (ns : List NewsItem)
    → other ≢ id
    → count other (drop_oldest k id ns) ≡ count other ns
unfolding count drop_oldest
count-drop_oldest_ne k id other [] h = refl
count-drop_oldest_ne k id other (n ∷ ns) h =
    ground (arith, count-drop_oldest_ne k id other ns, count-drop_oldest_ne (k - 1) id other ns)

count-drop-le : (k id : ℕ) (ns : List NewsItem) → count id (drop k ns) ≤ count id ns
unfolding count
count-drop-le zero id ns = omega arith
count-drop-le (suc k) id [] = omega arith
count-drop-le (suc k) id (n ∷ ns) = ground (arith, count-drop-le k id ns)

pub count-append :
    (id : ℕ) (ns ms : List NewsItem) → count id (ns ++ ms) ≡ count id ns + count id ms
unfolding count
count-append id [] ms = omega arith
count-append id (n ∷ ns) ms = ground (arith, count-append id ns ms)

count-le : (id : ℕ) (ns : List NewsItem) → count id ns ≤ length ns
unfolding count
count-le id [] = omega arith
count-le id (n ∷ ns) = ground (arith, count-le id ns)

pub length-drop_oldest :
    (k id : ℕ) (ns : List NewsItem) → k ≤ count id ns → length (drop_oldest k id ns) ≡ length ns - k
unfolding count drop_oldest
length-drop_oldest k id [] h = omega arith
length-drop_oldest k id (n ∷ ns) h =
    ground (arith, count-le id ns, length-drop_oldest k id ns, length-drop_oldest (k - 1) id ns)

-- After a line is posted the list has at most 2000 items, and the player's own are at most 50.
pub post_caps :
    (id : ℕ) (now : ℤ) (msg : Notice) (ns : List NewsItem)
    → (length (post id now msg ns) ≤ max_news_items)
      × (count id (post id now msg ns) ≤ max_news_per_player)
unfolding post trim
post_caps id now msg ns =
    let grown : List NewsItem =
      ns ++ (record { player = id; at = now; msg = msg; delivered = false } ∷ []) in
    let kept : List NewsItem = drop_oldest (count id grown - 50) id grown in
    (
      omega (arith, length-drop (length kept - 2000) kept),
      omega (
        arith,
        count-drop-le (length kept - 2000) id kept,
        count-drop_oldest (count id grown - 50) id grown,
      ),
    )

post_ne :
    (id other : ℕ) (now : ℤ) (msg : Notice) (ns : List NewsItem)
    → other ≢ id
    → count other (post id now msg ns) ≤ count other ns
unfolding post trim count
post_ne id other now msg ns h =
    let item : List NewsItem =
      record { player = id; at = now; msg = msg; delivered = false } ∷ [] in
    let grown : List NewsItem = ns ++ item in
    let kept : List NewsItem = drop_oldest (count id grown - 50) id grown in
    let own : count other item ≡ 0 = ground (arith, h) in
    omega (
      arith,
      own,
      count-drop-le (length kept - 2000) other kept,
      count-drop_oldest_ne (count id grown - 50) id other grown h,
      count-append other ns item,
    )

post_share :
    (id other : ℕ) (now : ℤ) (msg : Notice) (ns : List NewsItem)
    → count other ns ≤ 50
    → count other (post id now msg ns) ≤ 50
post_share id other now msg ns own = elim (Bool-cases (other == id)) [
  | inl e ↦ rw ((==_iff other id).0 e) (post_caps id now msg ns).1
  | inr e ↦ omega (arith, post_ne id other now msg ns (λ same. absurd (grind (arith, e, same))))
]

-- Whoever a line is for, a list within the caps stays within them: at most 2000 items altogether,
-- and at most 50 for any one player.
pub add_news_caps :
    (id other : ℕ) (now : ℤ) (msg : Notice) (u : Universe)
    → length u.news ≤ max_news_items
    → count other u.news ≤ max_news_per_player
    → (length (add_news id now msg u).news ≤ max_news_items)
      × (count other (add_news id now msg u).news ≤ max_news_per_player)
unfolding add_news
add_news_caps id other now msg u total own = elim (Bool-cases (unread id u)) [
  | inl e ↦ rw (e) (total, own)
  | inr e ↦ rw (e) ((post_caps id now msg u.news).0, post_share id other now msg u.news own)
]
