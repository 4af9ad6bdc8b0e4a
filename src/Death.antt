-- ===== src/Death.antt =====
-- pkg/galwar/death.go: death, expiry and reconstruction. The ids that uuid.New draws and the dice are
-- two streams. A calendar date is the number of its day.
pub mod Kit
pub mod Kill
pub mod Sound
pub mod Spares
mod Tests
use Prim.Native.String.{String}
use galwar.Base.{
  ℕ, zero, suc, ◌+◌, Bool, true, false, ◌||◌, Option, none, some, List, [], ◌∷◌, ◌++◌, ◌==◌, length,
  if◌then◌else◌,
}
use galwar.Base.Int.{ℤ, pos, ◌+ℤ◌, ◌-ℤ◌, ◌*ℤ◌, ◌/ℤ◌, ltb_ℤ, eqb_ℤ}
use galwar.Float64.{Float64, float_0_65}
use galwar.Rng.{Rng, intn}
use galwar.Inventory.{InventoryBase}
use galwar.Inventory.Goods.{
  Commodity, CommodityDefinition, zero_commodity, trade_goods, holds, fighters, turns,
}
use galwar.Config.{Config, config_int, same_string}
use galwar.Player.{Player, is_dead, is_npc, intact, move_to}
use galwar.Universe.{
  Universe, Planet, Battlegroup, nobody, player_at, set_player, mark_dirty, planet_revolted,
  repossessed,
}
use galwar.News.{add_news}
use galwar.Planet.{planet_at, set_planet}

pub record Chance : Type 0 where
  pub ids : Rng
  pub dice : Rng

pub data Faction : Type 0 where
  renegades cabal federation : Faction

-- "npc:" + kind, and the names
pub sub_of : Faction → String
sub_of renegades = "npc:renegades"
sub_of cabal = "npc:cabal"
sub_of federation = "npc:federation"

pub name_of : Faction → String
name_of renegades = "The Renegades"
name_of cabal = "The Cabal"
name_of federation = "The Federation"

-- `GetBySub`, as the index of the record
pub index_of_sub : ℕ → String → List Player → Option ℕ
index_of_sub i sub [] = none
index_of_sub i sub (p ∷ ps) =
    let rest = index_of_sub (i + 1) sub ps in if same_string p.google_sub sub then some i else rest

pub npc_record : Faction → ℕ → Player
unfolding sub_of name_of
npc_record kind id = record nobody {
  id = id;
  google_sub = sub_of kind;
  name = name_of kind;
  systems = intact;
}

-- `EnsureNPC`, with the pointer that it returns
pub ensure_npc : Faction → Universe × Rng → ℕ × Universe × Rng
unfolding sub_of index_of_sub npc_record
ensure_npc kind (u, ids) = elim (index_of_sub 0 (sub_of kind) u.players) [
  | some i ↦ (i, u, ids)
  | none ↦ (
    length u.players,
    record u { players = u.players ++ (npc_record kind (ids 0) ∷ []); dirty = true },
    λ n. ids (suc n),
  )
]

-- `if bg.Owner == p.Id { bg.Owner = renegades.Id }`, for every group
pub hand_over : ℕ → ℕ → List Battlegroup → List Battlegroup
hand_over old new [] = []
hand_over old new (b ∷ bs) =
    (if b.owner == old then record b { owner = new } else b) ∷ hand_over old new bs

abbrev give_planet : ℕ → ℕ → Universe → Universe
give_planet j heir u = set_planet j (record (planet_at u j) { owner = heir }) u

-- One planet of the list
pub revolt : ℕ → ℕ → ℤ → Universe × Chance → Universe × Chance
unfolding ensure_npc
revolt id j now (u, c) =
    if (planet_at u j).owner == id
    then (let (roll, dice) = intn 2 c.dice in
        let (heir, u', ids) = ensure_npc (if roll == 0 then cabal else federation) (u, c.ids) in
        (
          add_news id now planet_revolted (give_planet j (player_at u' heir).id u'),
          record { ids = ids; dice = dice },
        ))
    else (u, c)

-- The planets from index `j` on, as many as `n`
pub revolts : ℕ → ℕ → ℕ → ℤ → Universe × Chance → Universe × Chance
unfolding revolt
revolts zero id j now s = s
revolts (suc n) id j now s = revolts n id (j + 1) now (revolt id j now s)

pub forfeit_assets : ℕ → ℤ → Universe × Chance → Universe × Chance
unfolding ensure_npc hand_over revolts
forfeit_assets i now (u, c) =
    let id = (player_at u i).id in
    let (r, u', ids) = ensure_npc renegades (u, c.ids) in
    let u'' = record u' { battlegroups = hand_over id (player_at u' r).id u'.battlegroups } in
    revolts (length u.planets) id 0 now (u'', record c { ids = ids })

-- The quantity of a good that a new ship has
pub issued : Config → ℤ → CommodityDefinition → ℤ
issued config mult tg =
    if tg.name == holds
    then config_int config "starting_holds" tg.starting *ℤ mult /ℤ pos 100
    else if tg.name == fighters
    then config_int config "starting_fighters" tg.starting *ℤ mult /ℤ pos 100
    else if tg.name == turns
    then config_int config "turns_per_day" tg.starting
    else tg.starting

pub kit : Config → ℤ → List CommodityDefinition → List Commodity
unfolding issued
kit config mult [] = []
kit config mult (tg ∷ tgs) =
    record zero_commodity { name = tg.name; quantity = issued config mult tg } ∷ kit config mult tgs

unfoldable pub reset_to_starting_ship : Config → ℤ → Player → Player
unfolding kit
reset_to_starting_ship config mult p = record p {
  inv = record {
    inventory = kit config mult trade_goods;
    money = config_int config "starting_credits" (pos 35000) *ℤ mult /ℤ pos 100;
  };
  systems = intact;
  banked_turns = pos 0;
}

unfoldable pub kill_player : ℕ → ℤ → Universe × Chance → Universe × Chance
unfolding forfeit_assets
kill_player i now (u, c) =
    let p = player_at u i in
    let dying = set_player i (record p { times_died = p.times_died +ℤ pos 1; died_at = now }) u in
    let (u', c') = forfeit_assets i now (dying, c) in
    if is_dead p then (u, c) else (mark_dirty (set_player i (move_to 0 (player_at u' i)) u'), c')

unfoldable pub expire_player : ℕ → ℤ → Universe × Chance → Universe × Chance
unfolding forfeit_assets
expire_player i now (u, c) =
    let p = player_at u i in
    let (u', c') = forfeit_assets i now (u, c) in
    let q = move_to 1 (record (reset_to_starting_ship u'.config (pos 100) (player_at u' i)) {
      bank_balance = pos 0;
    }) in
    if is_npc p || is_dead p || p.expired then (u, c) else (
      mark_dirty (add_news p.id now repossessed (set_player i (record q { expired = true }) u')),
      c',
    )

-- `time.Unix(sec, 0).UTC().Format("2006-01-02")`
pub day : ℤ → ℤ
day seconds = (if ltb_ℤ seconds (pos 0) then seconds -ℤ pos 86399 else seconds) /ℤ pos 86400

module _ (fl : Float64) where
  open fl use {of_int, to_int, sub, mul, div, round}

  -- round((100 - (1/timesdied)*100) * 0.65), from the second death on
  pub penalty : ℤ → ℤ
  penalty deaths =
      if ltb_ℤ (pos 1) deaths
      then to_int (
          round (
            mul
              (sub (of_int (pos 100))
                (mul (div (of_int (pos 1)) (of_int deaths)) (of_int (pos 100))))
              float_0_65))
      else pos 0

  -- Whether the ship was rebuilt. `now` is in unix seconds.
  unfoldable pub reconstruct_if_due : ℕ → ℤ → Universe → Bool × Universe
  unfolding day penalty
  reconstruct_if_due i now u =
      let p = player_at u i in
      let mult = pos 100 -ℤ penalty p.times_died in
      let q = move_to 1 (record (reset_to_starting_ship u.config mult p) { died_at = pos 0 }) in
      if is_dead p
      then if eqb_ℤ (day p.died_at) (day now)
        then (false, u)
        else (true, mark_dirty (set_player i q u))
      else (false, u)
