-- ===== src/World/Pay.antt =====
-- A turn that is refused has written nothing: pkg/galwar/commands.go, `spendTurn`, in a world.
use galwar.Base.{ℕ, refl}
use galwar.GameError.{Result, Done, ok, err, IsAtomic}
use galwar.Player.{Player, spend_turn}
use galwar.Player.Turns.{spend_turn-IsAtomic}
use galwar.Universe.{Universe, player_at, set_player, on_player}
use galwar.Universe.Pointers.{set-get_or}
use galwar.Death.{Chance}
use galwar.World.{World, pay}

lift-IsAtomic :
    (i : ℕ) (u : Universe) (c : Chance) (r : Result Done × Player)
    → IsAtomic (player_at u i) r
    → (let out : Result Done × World = (r.0, (set_player i r.1 u, c)) in IsAtomic (u, c) out)
lift-IsAtomic i u c (ok _, p) h = tt
lift-IsAtomic i u c (err e, p) h = rw (h, set-get_or u.players i) refl

pub pay-IsAtomic : (i : ℕ) (w : World) → IsAtomic w (pay i w)
unfolding pay on_player
pay-IsAtomic i (u, c) =
    lift-IsAtomic i u c (spend_turn (player_at u i)) (spend_turn-IsAtomic (player_at u i))
