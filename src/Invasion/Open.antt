-- ===== src/Invasion/Open.antt =====
-- An invasion of a planet that nothing defends: pkg/galwar/combat.go, `InvadePlanet`.
use galwar.Base.{
  ℕ, ◌<◌, ◌≡◌, refl, ap, ◌∙◌, ◌⊎◌, inl, inr, false, length, List, get_or, Bool-cases, arith,
}
use galwar.Base.Int.{
  ℤ, pos, negsuc, ◌-ℤ◌, ◌/ℤ◌, ◌≤ℤ◌, ltb_ℤ, leb_ℤ, pos_part, int_laws, ltb_ℤ→lt, ltb_ℤ→le,
}
use galwar.Inventory.Goods.{fighters, mines}
use galwar.Universe.{Universe, Planet, player_at, planet_captured, nobody}
use galwar.Universe.Pointers.{get_or-set_self}
use galwar.News.{add_news, unread}
use galwar.Planet.{planet_at, no_planet, set_planet}
use galwar.Player.{Player, has}
use galwar.World.{World, has_in}
use galwar.Invasion.{stored, sweep, damage, capture, land, invade}

-- Where the planet has neither fighters nor mines, it is the invader's afterwards.
abbrev pub Claims : ℕ → ℕ → World → World → Type 0
Claims i j w w' =
    ((stored w fighters j ≤ℤ pos 0)
      × (stored w mines j ≤ℤ pos 0)
      × ((planet_at (w'.0) j).owner ≡ (player_at (w.0) i).id))
    ⊎ (pos 1 ≤ℤ stored w fighters j)
    ⊎ (pos 1 ≤ℤ stored w mines j)

self_minus : (a : ℤ) → a -ℤ a ≡ pos 0
self_minus a = omega int_laws

no_damage : (a : ℤ) → leb_ℤ (pos 100) (damage a a) ≡ false
unfolding ◌/ℤ◌
no_damage a = ap (λ (d : ℤ). leb_ℤ (pos 100) (d /ℤ pos 20)) (self_minus a)

told_planets :
    (id : ℕ) (now : ℤ) (u : Universe) → (add_news id now planet_captured u).planets ≡ u.planets
unfolding add_news
told_planets id now u = elim (Bool-cases (unread id u)) [
  | inl e ↦ rw (e) refl
  | inr e ↦ rw (e) refl
]

told_players :
    (id : ℕ) (now : ℤ) (u : Universe) → (add_news id now planet_captured u).players ≡ u.players
unfolding add_news
told_players id now u = elim (Bool-cases (unread id u)) [
  | inl e ↦ rw (e) refl
  | inr e ↦ rw (e) refl
]

capture-Claims :
    (i j old : ℕ) (now : ℤ) (w : World)
    → j < length (w.0).planets
    → (planet_at ((capture i j old (has_in fighters w i) now w).0) j).owner ≡ (player_at (w.0) i).id
unfolding capture
capture-Claims i j old now (u, c) inside =
    let mine : Universe = set_planet j (record (planet_at u j) { owner = (player_at u i).id }) u in
    let told : World = (add_news old now planet_captured mine, c) in
    let before = has_in fighters (u, c) i in
    let same : has_in fighters told i ≡ before =
      ap (λ (ps : List Player). has fighters (get_or ps i nobody)) (told_players old now mine) in
    let quiet : leb_ℤ (pos 100) (damage before (has_in fighters told i)) ≡ false =
      ap (λ (x : ℤ). leb_ℤ (pos 100) (damage before x)) same ∙ no_damage before in
    let held : (planet_at (told.0) j).owner ≡ (player_at u i).id =
      ap (λ (ps : List Planet). (get_or ps j no_planet).owner) (told_planets old now mine)
      ∙ ap (λ (q : Planet). q.owner) (get_or-set_self u.planets j _ no_planet inside) in
    rw (quiet) held

no_mines : (a : ℤ) → a ≤ℤ pos 0 → pos_part a ≡ 0
no_mines (pos n) h = omega (arith, h)
no_mines (negsuc n) h = refl

land-Claims :
    (tries i j old : ℕ) (now : ℤ) (w : World)
    → j < length (w.0).planets
    → stored w mines j ≤ℤ pos 0
    → (planet_at ((land tries i j old (has_in fighters w i) now w).0) j).owner
      ≡ (player_at (w.0) i).id
unfolding land
land-Claims tries i j old now w inside none_left =
    rw (no_mines (stored w mines j) none_left, sweep) (capture-Claims i j old now w inside)

pub invade-Claims :
    (tries i j : ℕ) (commit now : ℤ) (w : World)
    → j < length (w.0).planets
    → Claims i j w (invade tries i j commit now w)
unfolding invade
invade-Claims tries i j commit now w inside =
    elim (Bool-cases (ltb_ℤ (pos 0) (stored w fighters j))) [
      | inl garrison ↦ inr (inl (omega (int_laws, ltb_ℤ→lt (pos 0) (stored w fighters j) garrison)))
      | inr unheld ↦ elim (Bool-cases (ltb_ℤ (pos 0) (stored w mines j))) [
        | inl mined ↦ inr (inr (omega (int_laws, ltb_ℤ→lt (pos 0) (stored w mines j) mined)))
        | inr bare ↦
            let none = ltb_ℤ→le (pos 0) (stored w mines j) bare in
            inl (
              ltb_ℤ→le (pos 0) (stored w fighters j) unheld,
              none,
              rw (unheld) (land-Claims tries i j (planet_at (w.0) j).owner now w inside none),
            )
      ]
    ]
