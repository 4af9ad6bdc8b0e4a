-- ===== src/Planet/Transfers.antt =====
-- Transfers between a planet and a ship: pkg/galwar/planet.go.
use galwar.Base.{
  ℕ, ◌<◌, ◌≡◌, refl, inl, inr, ◌∙◌, true, false, Bool-cases, length, Option, none, some,
}
use galwar.Base.Int.{ℤ, pos, ◌-ℤ◌, ◌≤ℤ◌, ltb_ℤ, ltb_ℤ→le, int_laws}
use galwar.GameError.{Result, Done, ok, err, ◌>>=◌}
use galwar.Inventory.{get_quantity, adjust_quantity, get_free_holds}
use galwar.Inventory.Goods.{is_cargo}
use galwar.Inventory.Laws.{adjusted_sum, minus_negated}
use galwar.Inventory.Cargo.{get_free_holds-adjust_cargo}
use galwar.Transfer.{Transferred, total, set_sides}
use galwar.Universe.{Universe, player_at, nobody}
use galwar.Universe.Pointers.{get_or-set_self}
use galwar.Planet.{
  not_nil, get_planet, ship, store, leave, take, transfer_set, transfer_out, no_planet,
}
use galwar.Planet.Lookup.{IsOwn, Finds, get_planet-Finds}

-- A planet of the player's in the sector, against the universe after a transfer of the good.
pub record Exchanged (i sector good : ℕ) (kept : ℕ → ℤ) (u u' : Universe) : Type 0 where
  pub index : ℕ
  pub own : IsOwn (player_at u i).id sector u.planets index
  pub sides : Transferred good (kept index) (store u index) (ship u i) (store u' index) (ship u' i)

-- What a transfer has done: an exchange, or a refusal that wrote nothing.
abbrev pub Exchanges : ℕ → ℕ → ℕ → (ℕ → ℤ) → Universe → Result Done × Universe → Type 0
Exchanges i sector good kept u (ok _, u') = Exchanged i sector good kept u u'
Exchanges i sector good kept u (err e, u') = u' ≡ u

module _ (i sector good : ℕ) (amount : ℤ) (u : Universe) (inside : i < length u.players) where
  leave-Exchanges :
      (j : ℕ)
      → IsOwn (player_at u i).id sector u.planets j
      → pos 0 ≤ℤ amount
      → Exchanges i sector good (λ _. amount) u (leave i good amount j u)
  unfolding leave
  leave-Exchanges j o low = elim (Bool-cases (ltb_ℤ (total good (store u j) (ship u i)) amount)) [
    | inl short ↦ rw (short) refl
    | inr fits ↦ rw (fits) (record {
      index = j;
      own = o;
      sides =
          rw
            (
              get_or-set_self u.planets j _ no_planet o.inside,
              get_or-set_self u.players i _ nobody inside,
            )
            (set_sides good amount _ (store u j) (ship u i) low
              (ltb_ℤ→le (total good (store u j) (ship u i)) amount fits) refl);
    })
  ]

  leave_found :
      (r : Result (Option ℕ))
      → Finds (player_at u i).id sector u.planets r
      → pos 0 ≤ℤ amount
      → Exchanges i sector good
          (λ _. amount)
          u
          (((λ (v : Universe). (not_nil r, v)) >>= leave i good amount) u)
  leave_found (ok (some j)) o low = leave-Exchanges j o low
  leave_found (ok none) o low = absurd o
  leave_found (err e) _ low = refl

  -- Setting the planet's side of a good finds the player's own planet in the sector, leaves exactly
  -- the amount there and gives the ship the rest, so that the total of planet and ship is kept; or it
  -- is refused and changes nothing.
  pub transfer_set-Exchanges :
      Exchanges i sector good (λ _. amount) u (transfer_set i sector good amount u)
  unfolding transfer_set
  transfer_set-Exchanges = elim (Bool-cases (ltb_ℤ amount (pos 0))) [
    | inl negative ↦ rw (negative) refl
    | inr low ↦ rw (low) (
        leave_found (get_planet true false (player_at u i).id sector u.planets)
          (get_planet-Finds (player_at u i).id sector u.planets) (ltb_ℤ→le amount (pos 0) low))
  ]

  take-sides :
      (j : ℕ)
      → pos 0 ≤ℤ amount
      → amount ≤ℤ get_quantity good (store u j)
      → pos 0 ≤ℤ get_quantity good (ship u i)
      → Transferred good
          (get_quantity good (store u j) -ℤ amount)
          (store u j)
          (ship u i)
          (adjust_quantity good (pos 0 -ℤ amount) (store u j))
          (adjust_quantity good amount (ship u i))
  take-sides j low enough stocked =
      let there = minus_negated (get_quantity good (store u j)) amount in
      let left : get_quantity good (adjust_quantity good (pos 0 -ℤ amount) (store u j))
          ≡ get_quantity good (store u j) -ℤ amount =
        adjusted_sum good (pos 0 -ℤ amount) (store u j) (omega int_laws) ∙ there in
      record {
        set_side = left;
        sum = rw (left, adjusted_sum good amount (ship u i) (omega int_laws)) (omega int_laws);
      }

  take-Exchanges :
      (j : ℕ)
      → IsOwn (player_at u i).id sector u.planets j
      → pos 0 ≤ℤ amount
      → pos 0 ≤ℤ get_quantity good (ship u i)
      → Exchanges i sector good
          (λ k. get_quantity good (store u k) -ℤ amount)
          u
          (take i good amount j u)
  unfolding take
  take-Exchanges j o low stocked =
      elim (Bool-cases (ltb_ℤ (get_quantity good (store u j)) amount)) [
        | inl short ↦ rw (short) refl
        | inr enough ↦ elim (Bool-cases (ltb_ℤ (get_free_holds (ship u i)) amount)) [
          | inl full ↦ rw (enough, full) refl
          | inr room ↦
              rw (enough, room)
                (record {
                  index = j;
                  own = o;
                  sides =
                      rw
                        (
                          get_or-set_self u.planets j _ no_planet o.inside,
                          get_or-set_self u.players i _ nobody inside,
                        )
                        (take-sides j low (ltb_ℤ→le (get_quantity good (store u j)) amount enough)
                          stocked);
                })
        ]
      ]

  take_found :
      (r : Result (Option ℕ))
      → Finds (player_at u i).id sector u.planets r
      → pos 0 ≤ℤ amount
      → pos 0 ≤ℤ get_quantity good (ship u i)
      → Exchanges i sector good
          (λ k. get_quantity good (store u k) -ℤ amount)
          u
          (((λ (v : Universe). (not_nil r, v)) >>= take i good amount) u)
  take_found (ok (some j)) o low stocked = take-Exchanges j o low stocked
  take_found (ok none) o low stocked = absurd o
  take_found (err e) _ low stocked = refl

  -- Taking a good off a planet, for a ship that holds no negative quantity of it, finds the player's
  -- own planet in the sector, leaves exactly that much less there and gives it to the ship; or it is
  -- refused and changes nothing.
  pub transfer_out-Exchanges :
      pos 0 ≤ℤ get_quantity good (ship u i)
      → Exchanges i sector good
          (λ k. get_quantity good (store u k) -ℤ amount)
          u
          (transfer_out i sector good amount u)
  unfolding transfer_out
  transfer_out-Exchanges stocked = elim (Bool-cases (ltb_ℤ amount (pos 0))) [
    | inl negative ↦ rw (negative) refl
    | inr low ↦ rw (low) (
        take_found (get_planet true false (player_at u i).id sector u.planets)
          (get_planet-Finds (player_at u i).id sector u.planets) (ltb_ℤ→le amount (pos 0) low)
          stocked)
  ]

  take-fits :
      (j : ℕ)
      → is_cargo good ≡ true
      → pos 0 ≤ℤ amount
      → pos 0 ≤ℤ get_quantity good (ship u i)
      → pos 0 ≤ℤ get_free_holds (ship u i)
      → pos 0 ≤ℤ get_free_holds (ship (take i good amount j u).1 i)
  unfolding take
  take-fits j cargo low stocked free =
      elim (Bool-cases (ltb_ℤ (get_quantity good (store u j)) amount)) [
        | inl short ↦ rw (short) free
        | inr enough ↦ elim (Bool-cases (ltb_ℤ (get_free_holds (ship u i)) amount)) [
          | inl full ↦ rw (enough, full) free
          | inr room ↦
              let fits = ltb_ℤ→le (get_free_holds (ship u i)) amount room in
              rw (enough, room)
                (rw
                  (
                    get_or-set_self u.players i _ nobody inside,
                    get_free_holds-adjust_cargo good amount (ship u i) cargo (omega int_laws),
                  )
                  (omega int_laws))
        ]
      ]

  take_found-fits :
      (r : Result (Option ℕ))
      → is_cargo good ≡ true
      → pos 0 ≤ℤ amount
      → pos 0 ≤ℤ get_quantity good (ship u i)
      → pos 0 ≤ℤ get_free_holds (ship u i)
      → pos 0
        ≤ℤ get_free_holds (ship (((λ (v : Universe). (not_nil r, v)) >>= take i good amount) u).1 i)
  take_found-fits (ok (some j)) cargo low stocked free = take-fits j cargo low stocked free
  take_found-fits (ok none) cargo low stocked free = free
  take_found-fits (err e) cargo low stocked free = free

  -- Taking cargo off a planet never overfills the ship: where no more than its holds was in use, and it
  -- holds no negative quantity of the good, no more than its holds is in use afterwards.
  pub transfer_out-fits :
      is_cargo good ≡ true
      → pos 0 ≤ℤ get_quantity good (ship u i)
      → pos 0 ≤ℤ get_free_holds (ship u i)
      → pos 0 ≤ℤ get_free_holds (ship (transfer_out i sector good amount u).1 i)
  unfolding transfer_out
  transfer_out-fits cargo stocked free = elim (Bool-cases (ltb_ℤ amount (pos 0))) [
    | inl negative ↦ rw (negative) free
    | inr low ↦ rw (low) (
        take_found-fits (get_planet true false (player_at u i).id sector u.planets) cargo
          (ltb_ℤ→le amount (pos 0) low) stocked free)
  ]
