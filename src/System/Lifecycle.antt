-- ===== src/System/Lifecycle.antt =====
-- The life of a market in the tables while the engine runs, and what the steps keep.
use mathlib.Core.Path.{subst}
use polymarket_go_bot.Prelude.{
  String, ◌≡◌, ◌≢◌, refl, sym, ◌∙◌, Bool, true, false, not, List, All, All-mono, arith, str_eq,
  str_eq_iff, ◌⊎◌, inl, inr, Bool-cases,
}
use polymarket_go_bot.Prelude.Fallible.{Fallible, ok, fails}
use polymarket_go_bot.Decimal.{Decimal}
use polymarket_go_bot.Model.{MarketStatus, planned, active, resolved, redeemed}
use polymarket_go_bot.Storage.Postgres.{Db, Conn, update_market_status}
use polymarket_go_bot.Storage.Postgres.Laws.{IsUnique, update_market_status-IsUnique}
use polymarket_go_bot.Worker.{MarketWorker}
use polymarket_go_bot.Engine.{Handle, has_worker}
use polymarket_go_bot.Engine.Redeem.{status_in}
use polymarket_go_bot.System.{System, Stage, absent, starting, trading, ended, set_stage}
use polymarket_go_bot.System.Statuses
use polymarket_go_bot.System.Statuses.{IsOpen, IsOver}
use polymarket_go_bot.System.Rounds.{IsInserted}

-- The abstract life of a market. The last two moves are off its path: a market whose worker never got
-- to active, and a worker that ticks once more after the redemption, before it sees that it is closed.
pub data Moves : Fallible MarketStatus → Fallible MarketStatus → Type 0 where
  stay : (st : Fallible MarketStatus) → Moves st st
  insert : Moves fails (ok planned)
  activate : Moves (ok planned) (ok active)
  resolve : Moves (ok active) (ok resolved)
  redeem : Moves (ok resolved) (ok redeemed)
  resolve_planned : Moves (ok planned) (ok resolved)
  resolve_again : Moves (ok redeemed) (ok resolved)

module _ {D : Type 0} ⦃d : Decimal D⦄ where
  -- What the stage of a market's goroutine tells of its status and of its worker.
  abbrev pub IsStaged : Db → String → Stage D → Type 0
  IsStaged db id absent = Unit
  IsStaged db id starting = IsOpen (status_in id db)
  IsStaged db id (trading w) = w.market.id ≡ id
  IsStaged db id ended = Unit

  abbrev pub is_absent : Stage D → Bool
  is_absent absent = true
  is_absent x = false

  pub record IsLawful (s : System D) : Type 0 where
    pub unique : IsUnique s.db.markets
    pub handled : (id : String) → is_absent (s.stage id) ≡ not (has_worker s.handles id)
    pub staged : (id : String) → IsStaged s.db id (s.stage id)
    pub over : All (λ m. IsOver (status_in m.id s.db)) s.redeeming

pub clash : (st : Fallible MarketStatus) → IsOpen st → IsOver st → ⊥
clash st (inl e) (inl k) = ground arith
clash st (inl e) (inr k) = ground arith
clash st (inr e) (inl k) = ground arith
clash st (inr e) (inr k) = ground arith

pub same-Moves : (x y : Fallible MarketStatus) → y ≡ x → Moves x y
same-Moves x y e = rw e (stay x)

pub inserted-Moves : (x y : Fallible MarketStatus) → IsInserted x y → Moves x y
inserted-Moves x y (inl e) = same-Moves x y e
inserted-Moves x y (inr (e, k)) = rw e (rw k insert)

pub activate-Moves : (x y : Fallible MarketStatus) → IsOpen x → y ≡ ok active → Moves x y
activate-Moves x y (inl e) k = rw e (rw k activate)
activate-Moves x y (inr e) k = same-Moves x y (k ∙ sym e)

pub resolve-Moves :
    (x y : Fallible MarketStatus) (old : MarketStatus) → x ≡ ok old → y ≡ ok resolved → Moves x y
resolve-Moves x y planned e k = rw e (rw k resolve_planned)
resolve-Moves x y active e k = rw e (rw k resolve)
resolve-Moves x y resolved e k = same-Moves x y (k ∙ sym e)
resolve-Moves x y redeemed e k = rw e (rw k resolve_again)

pub redeem-Moves : (x y : Fallible MarketStatus) → IsOver x → y ≡ ok redeemed → Moves x y
redeem-Moves x y (inl e) k = rw e (rw k redeem)
redeem-Moves x y (inr e) k = same-Moves x y (k ∙ sym e)

-- An update of the status of an id, seen from another id, or from its own.
pub update-IsOver :
    (c : Conn) (id j : String) (st : MarketStatus) (db : Db)
    → IsOver (ok st) ⊎ IsOpen (status_in id db)
    → IsOver (status_in j db)
    → IsOver (status_in j (update_market_status c id st db).0)
update-IsOver c id j st db h over = elim (Statuses.status_in-update c id j st db) [
  | inl same ↦ rw same over
  | inr (own, new, old) ↦ elim h [
    | inl late ↦ rw new late
    | inr open_ ↦
        absurd (clash (status_in j db) (subst (λ k. IsOpen (status_in k db)) own open_) over)
  ]
]

pub update-IsOpen :
    (c : Conn) (id j : String) (st : MarketStatus) (db : Db)
    → IsOver (status_in id db)
    → IsOpen (status_in j db)
    → IsOpen (status_in j (update_market_status c id st db).0)
update-IsOpen c id j st db over open_ = elim (Statuses.status_in-update c id j st db) [
  | inl same ↦ rw same open_
  | inr (own, new, old) ↦
      absurd (clash (status_in j db) open_ (subst (λ k. IsOver (status_in k db)) own over))
]

module _ {D : Type 0} ⦃d : Decimal D⦄ where
  pub set_stage-IsStaged :
      (db : Db) (id : String) (x : Stage D) (stage : String → Stage D)
      → IsStaged db id x
      → ((j : String) → id ≢ j → IsStaged db j (stage j))
      → (j : String) → IsStaged db j (set_stage id x stage j)
  set_stage-IsStaged db id x stage own others j = elim (Bool-cases (str_eq id j)) [
    | inl hit ↦ rw hit (subst (λ k. IsStaged db k x) ((str_eq_iff id j).0 hit) own)
    | inr miss ↦ rw miss (others j (λ e. absurd (ground (arith, str_eq_iff id j))))
  ]

  pub set_stage-handled :
      (hs : List Handle) (id : String) (x : Stage D) (stage : String → Stage D)
      → is_absent x ≡ false
      → is_absent (stage id) ≡ false
      → ((j : String) → is_absent (stage j) ≡ not (has_worker hs j))
      → (j : String) → is_absent (set_stage id x stage j) ≡ not (has_worker hs j)
  set_stage-handled hs id x stage own before others j = elim (Bool-cases (str_eq id j)) [
    | inl hit ↦ rw hit (
        own
        ∙ sym before
        ∙ subst (λ k. is_absent (stage id) ≡ not (has_worker hs k)) ((str_eq_iff id j).0 hit)
            (others id))
    | inr miss ↦ rw miss (others j)
  ]

  -- A stage is told of as well by tables in which an open status is still open.
  pub IsStaged-mono :
      (db db' : Db) (j : String) (x : Stage D)
      → (IsOpen (status_in j db) → IsOpen (status_in j db'))
      → IsStaged db j x
      → IsStaged db' j x
  IsStaged-mono db db' j absent keep h = tt
  IsStaged-mono db db' j starting keep h = keep h
  IsStaged-mono db db' j (trading w) keep h = h
  IsStaged-mono db db' j ended keep h = tt

  -- What a step keeps, and how it moves each status.
  abbrev pub IsLawfulMove : System D → System D → Type 0
  IsLawfulMove s t = IsLawful t × ((id : String) → Moves (status_in id s.db) (status_in id t.db))

  -- A goroutine that sets its market's status goes on, or starts, to trade it.
  pub updated-IsLawful :
      (s : System D) (c : Conn) (id : String) (st : MarketStatus) (w : MarketWorker D)
      → IsLawful s
      → is_absent (s.stage id) ≡ false
      → IsOver (ok st) ⊎ IsOpen (status_in id s.db)
      → w.market.id ≡ id
      → ((old : MarketStatus)
          → status_in id s.db ≡ ok old
          → status_in id (update_market_status c id st s.db).0 ≡ ok st
          → Moves (status_in id s.db) (status_in id (update_market_status c id st s.db).0))
      → IsLawfulMove s (record s {
        db = (update_market_status c id st s.db).0;
        stage = set_stage id (trading w) s.stage;
      })
  updated-IsLawful s c id st w law before h own move = (
    record {
      unique = update_market_status-IsUnique c id st s.db law.unique;
      handled = set_stage-handled s.handles id (trading w) s.stage refl before law.handled;
      staged =
          set_stage-IsStaged db' id (trading w) s.stage own
            λ j other. IsStaged-mono s.db db' j (s.stage j) (kept j other) (law.staged j);
      over =
          All-mono (λ m. IsOver (status_in m.id s.db)) (λ m. IsOver (status_in m.id db'))
            s.redeeming (λ m. update-IsOver c id m.id st s.db h) law.over;
    },
    moved,
  )
    where
      db' : Db
      db' = (update_market_status c id st s.db).0

      kept : (j : String) → id ≢ j → IsOpen (status_in j s.db) → IsOpen (status_in j db')
      kept j other open_ = elim (Statuses.status_in-update c id j st s.db) [
        | inl same ↦ rw same open_
        | inr hit ↦ absurd (other hit.0)
      ]

      moved : (j : String) → Moves (status_in j s.db) (status_in j db')
      moved j = elim (Statuses.status_in-update c id j st s.db) [
        | inl same ↦ same-Moves (status_in j s.db) (status_in j db') same
        | inr (hit, new, (old, was)) ↦
            subst (λ k. Moves (status_in k s.db) (status_in k db')) hit
              (move old (subst (λ k. status_in k s.db ≡ ok old) (sym hit) was)
                (subst (λ k. status_in k db' ≡ ok st) (sym hit) new))
      ]
