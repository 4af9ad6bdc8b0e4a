-- ===== src/Sector/Plasma.antt =====
-- What a plasma device does to the warps: pkg/galwar/specials.go, `UsePlasma`.
use galwar.Base.{
  ℕ, ◌<◌, ◌≡◌, ◌≢◌, refl, ap, sym, inl, inr, ◌∙◌, Bool, false, ◌&&◌, ◌||◌, not, List, ◌==◌, ==_iff,
  leb, ltb, length, get_or, set, length-set, Bool-cases, arith,
}
use galwar.Base.Int.{pos, negsuc, ltb_ℤ, leb_ℤ}
use galwar.GameError.{Result, Command, Done, ok, err, IsAtomic, ◌>>◌, modify, bind_ok, bind_err}
use galwar.Player.{Player, is_dead, has, adjust, spend_turn}
use galwar.Player.Turns.{spend_turn-IsAtomic}
use galwar.Inventory.Goods.{plasma}
use galwar.Config.{config_int}
use galwar.Universe.{Universe, Sector, on_player, player_at, set_player, nobody, mark_dirty}
use galwar.Universe.Pointers.{get_or-set_self, get_or-set_ne, set-get_or}
use galwar.Sector.{
  has_warp, add_warp, remove_warp, no_sector, sector_at, on_sector, PlasmaAction, plasma_add,
  plasma_remove, fire, link, sever, rewire, use_plasma,
}
use galwar.Sector.Warps.{Increasing, contains-add_to, contains-remove_from}

-- There is a warp from `a` to `b`.
pub linked : List Sector → ℕ → ℕ → Bool
unfolding has_warp
linked ss a b = has_warp b (get_or ss a no_sector)

-- `a` and `b` are the two ends, in either order.
abbrev pub joins : ℕ → ℕ → ℕ → ℕ → Bool
joins src target a b = (a == src) && (b == target) || (a == target) && (b == src)

-- What an action makes of a warp.
abbrev pub rewired : PlasmaAction → Bool → Bool → Bool
rewired plasma_add ends l = ends || l
rewired plasma_remove ends l = l && not ends

abbrev edit : PlasmaAction → ℕ → Sector → Sector
edit plasma_add = add_warp
edit plasma_remove = remove_warp

-- One end of an edit.
one_end :
    (action : PlasmaAction) (w b : ℕ) (s : Sector)
    → Increasing s.warps
    → has_warp b (edit action w s) ≡ rewired action (b == w) (has_warp b s)
unfolding has_warp add_warp remove_warp
one_end plasma_add w b s h = contains-add_to b w s.warps ∙ ground arith
one_end plasma_remove w b s h = contains-remove_from b w s.warps h ∙ ground arith

ends_target : (src target a b : ℕ) → src ≢ target → a ≡ target → joins src target a b ≡ (b == src)
ends_target src target a b ne e = ground (arith, ne, e)

ends_src : (src target a b : ℕ) → src ≢ target → a ≡ src → joins src target a b ≡ (b == target)
ends_src src target a b ne e = ground (arith, ne, e)

no_end :
    (src target a b : ℕ) → (a == src) ≡ false → (a == target) ≡ false → joins src target a b ≡ false
no_end src target a b h k = rw (h, k) refl

idle : (action : PlasmaAction) (l : Bool) → l ≡ rewired action false l
idle plasma_add l = refl
idle plasma_remove l = ground arith

differs : (a b : ℕ) → (a == b) ≡ false → a ≢ b
differs a b h e = absurd (grind (arith, h, e))

module _ (action : PlasmaAction) (src target : ℕ) (ss : List Sector) (a b : ℕ)
    (inside : src < length ss) (there : target < length ss) (ne : src ≢ target)
    (near : Increasing (get_or ss src no_sector).warps)
    (far : Increasing (get_or ss target no_sector).warps) where
  abbrev edited : List Sector
  edited =
      set (set ss src (edit action target (get_or ss src no_sector))) target
        (edit action src (get_or ss target no_sector))

  at_target : get_or edited target no_sector ≡ edit action src (get_or ss target no_sector)
  at_target = get_or-set_self _ target _ no_sector (omega (arith, length-set ss src _))

  at_src : get_or edited src no_sector ≡ edit action target (get_or ss src no_sector)
  at_src =
      get_or-set_ne (set ss src (edit action target (get_or ss src no_sector))) target src _
        no_sector (λ e. ne (sym e))
      ∙ get_or-set_self ss src _ no_sector inside

  elsewhere : a ≢ src → a ≢ target → get_or edited a no_sector ≡ get_or ss a no_sector
  elsewhere h k =
      get_or-set_ne (set ss src (edit action target (get_or ss src no_sector))) target a _ no_sector
        (λ e. k (sym e))
      ∙ get_or-set_ne ss src a _ no_sector (λ e. h (sym e))

  linked-edited : linked edited a b ≡ rewired action (joins src target a b) (linked ss a b)
  unfolding linked
  linked-edited = elim (Bool-cases (a == target)) [
    | inl here ↦
        let e : a ≡ target = (==_iff a target).0 here in
        ap (λ n. has_warp b (get_or edited n no_sector)) e
        ∙ ap (has_warp b) at_target
        ∙ one_end action src b (get_or ss target no_sector) far
        ∙ rw (ends_target src target a b ne e, e) refl
    | inr away ↦ elim (Bool-cases (a == src)) [
      | inl here ↦
          let e : a ≡ src = (==_iff a src).0 here in
          ap (λ n. has_warp b (get_or edited n no_sector)) e
          ∙ ap (has_warp b) at_src
          ∙ one_end action target b (get_or ss src no_sector) near
          ∙ rw (ends_src src target a b ne e, e) refl
      | inr off ↦
          ap (has_warp b) (elsewhere (differs a src off) (differs a target away))
          ∙ rw (no_end src target a b off away) (idle action (has_warp b (get_or ss a no_sector)))
    ]
  ]

-- What firing the device has done to the warps.
abbrev Fires : PlasmaAction → ℕ → ℕ → Universe → Result Done × Universe → Type 0
Fires action src target u (ok _, u') =
    u'.sectors
    ≡ set (set u.sectors src (edit action target (sector_at u src))) target (
        edit action src
          (get_or (set u.sectors src (edit action target (sector_at u src))) target no_sector))
Fires action src target u (err e, u') = u' ≡ u

-- What comes after the turn.
abbrev edits : ℕ → PlasmaAction → ℕ → ℕ → Command Universe Done
edits i action src target = do
  modify (on_sector src (edit action target))
  modify (on_sector target (edit action src))
  modify (λ (u : Universe). (on_player i (modify (adjust plasma (negsuc 0))) u).1)
  modify mark_dirty

edits_sectors :
    (i : ℕ) (action : PlasmaAction) (src target : ℕ) (u : Universe) (p : Player)
    → Fires action src target u (edits i action src target (set_player i p u))
unfolding on_player
edits_sectors i action src target u p = refl

fire-split :
    (i : ℕ) (action : PlasmaAction) (src target : ℕ) (u : Universe)
    → fire i (edit action) src target u ≡ (on_player i spend_turn >> edits i action src target) u
unfolding fire
fire-split i action src target u = refl

fired :
    (i : ℕ) (action : PlasmaAction) (src target : ℕ) (u : Universe) (r : Result Done × Player)
    → spend_turn (player_at u i) ≡ r
    → IsAtomic (player_at u i) r
    → Fires action src target u (fire i (edit action) src target u)
unfolding on_player
fired i action src target u (ok _, p) e _ =
    rw
      (fire-split i action src target u
        ∙ bind_ok (on_player i spend_turn) (λ _. edits i action src target) u (set_player i p u) tt
            (ap (λ r. (r.0, set_player i r.1 u)) e))
      (edits_sectors i action src target u p)
fired i action src target u (err x, p) e same =
    rw
      (fire-split i action src target u
        ∙ bind_err (on_player i spend_turn) (λ _. edits i action src target) u (set_player i p u) x
            (ap (λ r. (r.0, set_player i r.1 u)) e))
      (rw (same, set-get_or u.players i nobody) refl)

fire-Fires :
    (i : ℕ) (action : PlasmaAction) (src target : ℕ) (u : Universe)
    → Fires action src target u (fire i (edit action) src target u)
fire-Fires i action src target u =
    fired i action src target u (spend_turn (player_at u i)) refl
      (spend_turn-IsAtomic (player_at u i))

rewire-Fires :
    (i : ℕ) (action : PlasmaAction) (src target : ℕ) (u : Universe)
    → Fires action src target u (rewire action i src target u)
unfolding rewire link sever
rewire-Fires i plasma_add src target u =
    let max_warps = config_int u.config "max_warps" (pos 8) in
    elim (Bool-cases (has_warp target (sector_at u src))) [
      | inl there ↦ rw (there) refl
      | inr none ↦ elim (Bool-cases (leb_ℤ max_warps (pos (length (sector_at u src).warps)))) [
        | inl full ↦ rw (none, full) refl
        | inr room ↦ elim (Bool-cases (leb_ℤ max_warps (pos (length (sector_at u target).warps)))) [
          | inl crowded ↦ rw (none, room, crowded) refl
          | inr free ↦ rw (none, room, free) (fire-Fires i plasma_add src target u)
        ]
      ]
    ]
rewire-Fires i plasma_remove src target u = elim (Bool-cases (has_warp target (sector_at u src))) [
  | inl there ↦ rw (there) (fire-Fires i plasma_remove src target u)
  | inr none ↦ rw (none) refl
]

in_range : (t n : ℕ) → ltb t 1 || leb n t ≡ false → t < n
in_range t n h = ground arith

-- What `UsePlasma` has done to the warp from `a` to `b`.
abbrev pub Links : PlasmaAction → ℕ → ℕ → ℕ → ℕ → Universe → Result Done × Universe → Type 0
Links action src target a b u (ok _, u') =
    linked u'.sectors a b ≡ rewired action (joins src target a b) (linked u.sectors a b)
Links action src target a b u (err e, u') = u' ≡ u

module _ (action : PlasmaAction) (src target a b : ℕ) (u : Universe)
    (inside : src < length u.sectors) (there : target < length u.sectors) (ne : src ≢ target)
    (near : Increasing (sector_at u src).warps) (far : Increasing (sector_at u target).warps) where
  read_target :
      get_or (set u.sectors src (edit action target (sector_at u src))) target no_sector
      ≡ sector_at u target
  read_target = get_or-set_ne u.sectors src target _ no_sector ne

  Fires-Links :
      (r : Result Done × Universe) → Fires action src target u r → Links action src target a b u r
  Fires-Links (ok _, u') e =
      ap (λ ss. linked ss a b) (rw (read_target) at e)
      ∙ linked-edited action src target u.sectors a b inside there ne near far
  Fires-Links (err x, u') e = e

-- A plasma device, used by a player whose sector exists and where the warps of the two sectors are
-- strictly sorted, adds or removes the warp between that sector and the target in both directions and
-- changes no other warp; or it is refused and changes nothing.
pub use_plasma-Links :
    (i : ℕ) (action : PlasmaAction) (target a b : ℕ) (u : Universe)
    → (player_at u i).sector < length u.sectors
    → Increasing (sector_at u (player_at u i).sector).warps
    → Increasing (sector_at u target).warps
    → Links action (player_at u i).sector target a b u (use_plasma i action target u)
unfolding use_plasma
use_plasma-Links i action target a b u inside near far =
    let p = player_at u i in
    elim (Bool-cases (is_dead p)) [
      | inl dead ↦ rw (dead) refl
      | inr alive ↦ elim (Bool-cases (ltb_ℤ (has plasma p) (pos 1))) [
        | inl none ↦ rw (alive, none) refl
        | inr some ↦ elim (Bool-cases (leb p.sector 10)) [
          | inl home ↦ rw (alive, some, home) refl
          | inr out ↦ elim (Bool-cases (ltb target 1 || leb (length u.sectors) target)) [
            | inl wild ↦ rw (alive, some, out, wild) refl
            | inr known ↦ elim (Bool-cases (leb target 10)) [
              | inl core ↦ rw (alive, some, out, known, core) refl
              | inr rim ↦ elim (Bool-cases (target == p.sector)) [
                | inl self ↦ rw (alive, some, out, known, rim, self) refl
                | inr other ↦
                    rw (alive, some, out, known, rim, other)
                      (Fires-Links action p.sector target a b u inside
                        (in_range target (length u.sectors) known)
                        (λ e. differs target p.sector other (sym e)) near far
                        (rewire action i p.sector target u)
                        (rewire-Fires i action p.sector target u))
              ]
            ]
          ]
        ]
      ]
    ]
