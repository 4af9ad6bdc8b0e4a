-- ===== src/News/Tests.antt =====
-- News at concrete universes.
use galwar.Base.{ℕ, ◌≡◌, ◌≤◌, refl, inl, [], ◌∷◌, ◌++◌, length, false, arith}
use galwar.Base.Int.{pos}
use galwar.Universe.{Universe, nobody, get_by_id}
use galwar.Universe.Notice.{attacked, salvaged, killed}
use galwar.News.{
  count, unread, add_news, take_news, undelivered, max_news_items, max_news_per_player,
}
use galwar.News.Caps.{add_news_caps}
use galwar.News.Delivery.{add_news-undelivered, take_news-add_news}

abbrev quiet : Universe
quiet = record {
  ports = [];
  players = record nobody { id = 7 } ∷ record nobody { id = 8 } ∷ [];
  battlegroups = [];
  planets = [];
  sectors = [];
  config = [];
  news =
      record { player = 8; at = pos 10; msg = attacked; delivered = false }
      ∷ record { player = 7; at = pos 20; msg = salvaged; delivered = false }
      ∷ [];
  dirty = false;
}

quiet_reader : unread 7 quiet ≡ false
unfolding unread get_by_id galwar.Player.is_npc
quiet_reader = refl

few : (id : ℕ) → count id quiet.news ≤ 2
unfolding count
few id = ground arith

add_news_caps_example :
    (length (add_news 7 (pos 30) killed quiet).news ≤ max_news_items)
    × (count 8 (add_news 7 (pos 30) killed quiet).news ≤ max_news_per_player)
add_news_caps_example = add_news_caps 7 8 (pos 30) killed quiet (omega arith) (omega (arith, few 8))

add_news-undelivered_example :
    undelivered 8 (add_news 7 (pos 30) killed quiet).news ≡ undelivered 8 quiet.news
add_news-undelivered_example =
    add_news-undelivered 7 8 (pos 30) killed quiet (omega arith) (inl (omega arith))

take_news-add_news_example :
    (take_news 7 (add_news 7 (pos 30) killed quiet)).0 ≡ (take_news 7 quiet).0 ++ (killed ∷ [])
take_news-add_news_example =
    take_news-add_news 7 (pos 30) killed quiet quiet_reader (omega arith) (omega (arith, few 7))
