-- ===== src/Lib.antt =====
-- Galactic Warzone (galwar2025): the rules of the game engine, pkg/galwar, as functions on its state.
--
-- The engine keeps one universe: ports, players, battlegroups, planets, sectors, settings and news. A
-- command reads and writes it in place and returns a value or an error. An actor runs one command at
-- a time, so a command is a function from a state to a result and a state.
--
-- Which file models which part (paths below pkg/galwar):
--   GameError    error.go: the codes, and the shape of a command (do blocks, early returns)
--   Inventory    base.go, commodity.go: quantities, money, holds; Goods has the table of goods
--   Price        commodity.go: the prices at a port, by its stock
--   Restock      commodity.go, port.go: production that accrues by the second
--   Trade        ops.go: ScaleFactor, ScaleUp, scaleDown, TradeBuy, TradeSell, TradeBuyNoLimit
--   Attrition    combat.go: attrition, over the dice of Rng
--   Config       config.go, with strconv.Atoi in Text
--   Player       player.go, spendTurn and CheckSystem of commands.go, devices of specials.go
--   Universe     universe.go: the state and pointers to players
--   News         news.go: AddNews, TakeNews, trimNews
--   Dormancy     dormancy.go: IsDormant, IsExpired
--   Bank         bank.go: BankDeposit, BankWithdraw, creditBankInterest
--   Planet       planet.go: NewPlanet, GetPlanet, TransferSet, TransferOut, TransferIn; Transfer
--                has what TransferSet and AdjustBattlegroup share
--   Battlegroup  battlegroup.go: GetBattlegroup, AdjustBattlegroup
--   Sector       sector.go: AddWarp, RemoveWarp, HasWarp; UsePlasma of specials.go
--   Docking      commands.go: Dock, SolRepair
--   Market       ops.go: the trades as methods of the universe
--   Pulsar       specials.go: UsePulsar, UsePulsarTube, bombPlanet
--   Death        death.go: EnsureNPC, KillPlayer, ExpirePlayer, ReconstructIfDue
--   Hazards      combat.go: mineBlast; hostileBattlegroup of commands.go
--   World        the universe with its dice: tryEmWarp of specials.go, a mine that goes off against a ship
--   Movement     commands.go: MovePlayer
--   Combat       combat.go: AttackPlayer, resolveKill, resolveKillReversed, detonateCarriedMines
--   Invasion     combat.go: InvadePlanet
--   Fleet        combat.go: LaunchBattleGroup, battleSector
--   Route        universe.go: ShortestPathTo
--   Computer     computer.go: NearestPort, and the reports
--   Value        value.go: PlayerValue, RankedPlayers
--   Maintenance  maintenance.go: the loop that resets the turns, growPlanet
--   Services     port.go: ensureAmazingDevices, ensureInterstel, freePortSector; what is in a
--                sector, and the visible ships of dormancy.go
-- Base has the lists, the tests and the integers that all of them share.
--
-- How the code is read. A Go int is an integer without a bound: the amounts of the game are far from
-- 2^63. Names of goods and ids of players are only compared, so they are numbers; so are sectors, where
-- a negative number behaves as 0 does. A pointer to a player, planet, battlegroup or port is an index
-- into its list, and a write through it replaces the element. A float64 is its bit pattern, and the
-- operations of IEEE 754 are the parameter Float64, with the laws that the trades rely on as
-- ScaleLaws; Float64.Whole is an instance. Dice are a stream of numbers, Rng. The texts of errors,
-- reports and news lines are left out; a news line has the kind of its message.
--
-- Loops with a condition run on fuel: `attrition` on as many rounds as there are fighters, since each
-- round costs one; the search of `scaleDown` on as many steps as there are units traded; the search of
-- `NearestPort` on as many rounds as there are sectors, since each takes one sector that was flagged
-- once; `ShortestPathTo` on as many rounds as there are sectors, since each visits one more, and the path
-- back is no longer than the rounds were; the loops over mines on as many rounds as there are mines. The draws of `tryEmWarp` have no
-- bound in the code; here `tries` bounds them, and the theorems hold for every `tries`.
--
-- Not modelled: the nightly sweep, factions, administration and generation of a universe; the front ends,
-- servers, database and language filter, which are outside the rules.
pub mod Attrition
pub mod Bank
pub mod Base
pub mod Battlegroup
pub mod Combat
pub mod Computer
pub mod Config
pub mod Death
pub mod Docking
pub mod Dormancy
pub mod Fleet
pub mod Float64
pub mod GameError
pub mod Hazards
pub mod Invasion
pub mod Inventory
pub mod Maintenance
pub mod Market
pub mod Movement
pub mod News
pub mod Planet
pub mod Player
pub mod Price
pub mod Pulsar
pub mod Restock
pub mod Rng
pub mod Route
pub mod Sector
pub mod Services
pub mod Text
pub mod Trade
pub mod Transfer
pub mod Universe
pub mod Value
pub mod World
