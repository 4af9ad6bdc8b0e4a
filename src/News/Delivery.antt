-- ===== src/News/Delivery.antt =====
-- What a player of pkg/galwar/news.go reads.
use galwar.Base.{
  ℕ, ◌-◌, ◌≤◌, ◌<◌, ◌≡◌, ap, ◌⊎◌, append-nil, refl, inl, inr, ◌≢◌, false, List, [], ◌∷◌, ◌++◌, ltb,
  length, length-append, Bool-cases, arith,
}
use galwar.Base.Int.{ℤ}
use galwar.Universe.{Universe, NewsItem, Notice}
use galwar.News.{
  count, drop_oldest, trim, post, unread, add_news, undelivered, deliver, take_news, trim_news_list,
  trim_news,
}
use galwar.News.Caps.{count-append, length-drop_oldest}

undelivered-deliver : (id : ℕ) (ns : List NewsItem) → undelivered id (deliver id ns) ≡ []
unfolding undelivered deliver
undelivered-deliver id [] = refl
undelivered-deliver id (n ∷ ns) = ground (arith, undelivered-deliver id ns)

undelivered-deliver_ne :
    (id other : ℕ) (ns : List NewsItem)
    → other ≢ id
    → undelivered other (deliver id ns) ≡ undelivered other ns
unfolding undelivered deliver
undelivered-deliver_ne id other [] h = refl
undelivered-deliver_ne id other (n ∷ ns) h = ground (arith, undelivered-deliver_ne id other ns)

undelivered-append :
    (id : ℕ) (ns ms : List NewsItem)
    → undelivered id (ns ++ ms) ≡ undelivered id ns ++ undelivered id ms
unfolding undelivered
undelivered-append id [] ms = refl
undelivered-append id (n ∷ ns) ms = ground (arith, undelivered-append id ns ms)

undelivered-trim :
    (id : ℕ) (cutoff : ℤ) (ns : List NewsItem)
    → undelivered id (trim_news_list cutoff ns) ≡ undelivered id ns
unfolding undelivered trim_news_list
undelivered-trim id cutoff [] = refl
undelivered-trim id cutoff (n ∷ ns) = ground (arith, undelivered-trim id cutoff ns)

drop_oldest-zero : (id : ℕ) (ns : List NewsItem) → drop_oldest 0 id ns ≡ ns
unfolding drop_oldest
drop_oldest-zero id [] = refl
drop_oldest-zero id (n ∷ ns) = ap (◌∷◌ n) (drop_oldest-zero id ns)

undelivered-drop_oldest :
    (k id other : ℕ) (ns : List NewsItem)
    → other ≢ id
    → undelivered other (drop_oldest k id ns) ≡ undelivered other ns
unfolding undelivered drop_oldest
undelivered-drop_oldest k id other [] h = refl
undelivered-drop_oldest k id other (n ∷ ns) h =
    ground
      (arith, undelivered-drop_oldest k id other ns, undelivered-drop_oldest (k - 1) id other ns)

module _ (id : ℕ) (now : ℤ) (msg : Notice) (ns : List NewsItem) where
  abbrev posted : List NewsItem
  posted = record { player = id; at = now; msg = msg; delivered = false } ∷ []

  count-posted : count id posted ≡ 1
  unfolding count
  count-posted = ground arith

  undelivered-posted : undelivered id posted ≡ msg ∷ []
  unfolding undelivered
  undelivered-posted = ground arith

  undelivered-posted_ne : (other : ℕ) → other ≢ id → undelivered other posted ≡ []
  unfolding undelivered
  undelivered-posted_ne other h = ground (arith, h)

  -- With room on the list the global cap drops nothing.
  post-room :
      (length ns < 2000) ⊎ ((length ns ≤ 2000) × (50 ≤ count id ns))
      → post id now msg ns ≡ drop_oldest (count id (ns ++ posted) - 50) id (ns ++ posted)
  unfolding post trim
  post-room room =
      let grown : List NewsItem = ns ++ posted in
      let over : ℕ = count id grown - 50 in
      let kept : List NewsItem = drop_oldest over id grown in
      let none_over : length kept - 2000 ≡ 0 = ground (
        arith,
        room,
        length-drop_oldest over id grown,
        count-append id ns posted,
        count-posted,
        length-append ns posted,
      ) in
      rw (none_over)

  undelivered-post :
      (other : ℕ)
      → other ≢ id
      → (length ns < 2000) ⊎ ((length ns ≤ 2000) × (50 ≤ count id ns))
      → undelivered other (post id now msg ns) ≡ undelivered other ns
  undelivered-post other h room = rw (
    post-room room,
    undelivered-drop_oldest (count id (ns ++ posted) - 50) id other (ns ++ posted) h,
    undelivered-append other ns posted,
    undelivered-posted_ne other h,
    append-nil (undelivered other ns),
  )

  undelivered-post_self :
      length ns < 2000
      → count id ns < 50
      → undelivered id (post id now msg ns) ≡ undelivered id ns ++ (msg ∷ [])
  undelivered-post_self room share =
      let within : count id (ns ++ posted) - 50 ≡ 0 =
        omega (arith, count-append id ns posted, count-posted) in
      rw (
        post-room (inl room),
        within,
        drop_oldest-zero id (ns ++ posted),
        undelivered-append id ns posted,
        undelivered-posted,
      )

-- A player who has read the news finds nothing new on reading again, and no other player's unread
-- news is touched.
pub take_news-once :
    (id other : ℕ) (u : Universe)
    → other ≢ id
    → ((take_news id (take_news id u).1).0 ≡ [])
      × (undelivered other (take_news id u).1.news ≡ undelivered other u.news)
unfolding take_news
take_news-once id other u h = elim (Bool-cases (ltb 0 (length (undelivered id u.news)))) [
  | inl e ↦ rw (e) (undelivered-deliver id u.news, undelivered-deliver_ne id other u.news h)
  | inr e ↦ rw (e) (undelivered-deliver id u.news, undelivered-deliver_ne id other u.news h)
]

-- The nightly trim takes no unread line from anyone, whatever its age.
pub take_news-trim_news :
    (id : ℕ) (cutoff : ℤ) (u : Universe)
    → (take_news id (trim_news cutoff u)).0 ≡ (take_news id u).0
unfolding take_news trim_news
take_news-trim_news id cutoff u = undelivered-trim id cutoff u.news

-- A line for one player takes no unread line from another, when the list is not full, or when it is
-- full and the player's own share is used up.
pub add_news-undelivered :
    (id other : ℕ) (now : ℤ) (msg : Notice) (u : Universe)
    → other ≢ id
    → (length u.news < 2000) ⊎ ((length u.news ≤ 2000) × (50 ≤ count id u.news))
    → undelivered other (add_news id now msg u).news ≡ undelivered other u.news
unfolding add_news
add_news-undelivered id other now msg u h room = elim (Bool-cases (unread id u)) [
  | inl e ↦ rw (e)
  | inr e ↦ rw (e) (undelivered-post id now msg u.news other h room)
]

-- A reader with fewer than 50 items, on a list with room, reads the line that was added, after the
-- lines that were already unread.
pub take_news-add_news :
    (id : ℕ) (now : ℤ) (msg : Notice) (u : Universe)
    → unread id u ≡ false
    → length u.news < 2000
    → count id u.news < 50
    → (take_news id (add_news id now msg u)).0 ≡ (take_news id u).0 ++ (msg ∷ [])
unfolding take_news add_news
take_news-add_news id now msg u reader room share =
    rw (reader) (undelivered-post_self id now msg u.news room share)
