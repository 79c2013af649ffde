-- ===== src/Engine/Round.antt =====
-- internal/engine/engine.go: what the table of workers holds after a round.
use polymarket_go_bot.Prelude.{
  ℕ, String, ◌≡◌, refl, Bool, true, false, not, ◌&&◌, ◌||◌, List, [], ◌∷◌, ◌++◌, arith, str_eq_iff,
  if◌then◌else◌, inl, inr, ◌⊎◌,
}
use polymarket_go_bot.Prelude.Fallible.{Fallible, ok, fails}
use polymarket_go_bot.Decimal.{Decimal}
use polymarket_go_bot.Model.{Market, planned}
use polymarket_go_bot.Config.{Config, has_key}
use polymarket_go_bot.Storage.{Storage}
use polymarket_go_bot.Storage.Postgres.{ids}
use polymarket_go_bot.Engine.{
  Handle, has_worker, start_workers, cancel_all, filter_markets, insert_new, on_answers,
  process_markets, slice_existence_map, start_inserted, after_insert,
}

abbrev handle : String → Handle
handle id = record { market_id = id; cancelled = false }

has_worker-append :
    (hs ks : List Handle) (j : String)
    → has_worker (hs ++ ks) j ≡ has_worker hs j || has_worker ks j
unfolding has_worker
has_worker-append [] ks j = refl
has_worker-append (h ∷ hs) ks j = ground (arith, has_worker-append hs ks j)

pub has_key-append :
    (xs ys : List String) (j : String) → has_key (xs ++ ys) j ≡ has_key xs j || has_key ys j
unfolding has_key
has_key-append [] ys j = refl
has_key-append (x ∷ xs) ys j = ground (arith, has_key-append xs ys j)

-- After the loop, the running markets are those that ran before and those of the list.
pub has_worker-start_workers :
    (xs : List String) (hs : List Handle) (j : String)
    → has_worker (start_workers xs hs) j ≡ has_worker hs j || has_key xs j
unfolding start_workers has_worker has_key
has_worker-start_workers [] hs j = ground arith
has_worker-start_workers (x ∷ xs) hs j = ground (
  arith,
  has_worker-start_workers xs hs j,
  has_worker-start_workers xs (hs ++ handle x ∷ []) j,
  has_worker-append hs (handle x ∷ []) j,
  str_eq_iff x j,
)

pub has_worker-cancel_all :
    (hs : List Handle) (id : String) → has_worker (cancel_all hs) id ≡ has_worker hs id
unfolding has_worker cancel_all
has_worker-cancel_all [] id = refl
has_worker-cancel_all (h ∷ hs) id = ground (arith, has_worker-cancel_all hs id)

-- No market has two workers.
abbrev pub IsSingle : List Handle → Type 0
IsSingle [] = Unit
IsSingle (h ∷ hs) = (has_worker hs h.market_id ≡ false) × IsSingle hs

IsSingle-append :
    (hs : List Handle) (id : String)
    → has_worker hs id ≡ false
    → IsSingle hs
    → IsSingle (hs ++ handle id ∷ [])
unfolding has_worker
IsSingle-append [] id h u = (refl, tt)
IsSingle-append (k ∷ ks) id h (hk, u) = (
  ground (
    arith,
    has_worker-append ks (handle id ∷ []) k.market_id,
    str_eq_iff id k.market_id,
    str_eq_iff k.market_id id,
  ),
  IsSingle-append ks id (ground arith) u,
)

pub start_workers-IsSingle :
    (xs : List String) (hs : List Handle) → IsSingle hs → IsSingle (start_workers xs hs)
unfolding start_workers
start_workers-IsSingle [] hs u = u
start_workers-IsSingle (x ∷ xs) hs u =
    start_workers-IsSingle xs _ (ground (arith, IsSingle-append hs x))

module _ {S : Type 0} ⦃storage : Storage S⦄ where
  -- Of the loop that inserts: the ids to start are those given, and the new ones of the markets.
  abbrev IsToStart :
      (String → Bool) → List Market → List String → S × Fallible (List String) → Type 0
  IsToStart uniq ms xs (st, ok ys) =
      (j : String) → has_key ys j ≡ has_key xs j || has_key (ids ms) j && not (uniq j)
  IsToStart uniq ms xs (st, fails) = Unit

  IsToStart-shift :
      (uniq : String → Bool) (m : Market) (ms : List Market) (xs : List String)
      (r : S × Fallible (List String))
      → uniq m.id ≡ false
      → IsToStart uniq ms (xs ++ m.id ∷ []) r
      → IsToStart uniq (m ∷ ms) xs r
  unfolding has_key
  IsToStart-shift uniq m ms xs (st, ok ys) new h =
      λ j. ground (arith, h j, has_key-append xs (m.id ∷ []) j, str_eq_iff m.id j)
  IsToStart-shift uniq m ms xs (st, fails) new h = tt

  IsToStart-skip :
      (uniq : String → Bool) (m : Market) (ms : List Market) (xs : List String)
      (r : S × Fallible (List String))
      → uniq m.id ≡ true
      → IsToStart uniq ms xs r
      → IsToStart uniq (m ∷ ms) xs r
  unfolding has_key
  IsToStart-skip uniq m ms xs (st, ok ys) old h = λ j. ground (arith, h j, str_eq_iff m.id j)
  IsToStart-skip uniq m ms xs (st, fails) old h = tt

  insert_new-IsToStart :
      (uniq : String → Bool) (ms : List Market) (xs : List String) (st : S)
      → IsToStart uniq ms xs (insert_new uniq ms xs st)
  unfolding insert_new has_key
  insert_new-IsToStart uniq [] xs st = λ j. ground arith
  insert_new-IsToStart uniq (m ∷ ms) xs st =
      split (insert_new-IsToStart uniq ms (xs ++ m.id ∷ [])) (insert_new-IsToStart uniq ms xs st)
        (uniq m.id) refl
    where
      inserted :
          uniq m.id ≡ false
          → ((st' : S)
              → IsToStart uniq ms (xs ++ m.id ∷ []) (insert_new uniq ms (xs ++ m.id ∷ []) st'))
          → (r : S × Fallible (Unit {0}))
          → IsToStart uniq (m ∷ ms) xs (after_insert (insert_new uniq ms (xs ++ m.id ∷ [])) r)
      inserted new ih (st', ok u) =
          IsToStart-shift uniq m ms xs (insert_new uniq ms (xs ++ m.id ∷ []) st') new (ih st')
      inserted new ih (st', fails) = tt

      split :
          ((st' : S)
            → IsToStart uniq ms (xs ++ m.id ∷ []) (insert_new uniq ms (xs ++ m.id ∷ []) st'))
          → IsToStart uniq ms xs (insert_new uniq ms xs st)
          → (b : Bool) → uniq m.id ≡ b
          → IsToStart uniq (m ∷ ms) xs (
              if b
              then insert_new uniq ms xs st
              else after_insert
                  (insert_new uniq ms (xs ++ m.id ∷ []))
                  (storage.insert_market (record m { status = planned }) st))
      split ih1 ih2 true e = IsToStart-skip uniq m ms xs (insert_new uniq ms xs st) e ih2
      split ih1 ih2 false e =
          inserted e ih1 (storage.insert_market (record m { status = planned }) st)

  -- The table `after` a round: it is as it was, or the exchange and the storage answered, and the
  -- running markets are those that ran, those saved, and those of the answer that are kept.
  abbrev pub IsRound :
      {D : Type 0} ⦃d : Decimal D⦄
      → Config D
      → (ℕ → ℕ)
      → Fallible (List Market)
      → S
      → List Handle
      → List Handle
      → Type 0
  IsRound cfg clock answer st hs after =
      (after ≡ hs)
      ⊎ ((saved : List String) × (markets : List Market) × (storage.get_planned_and_active_markets
              st
            ≡ ok saved)
          × (answer ≡ ok markets)
          × ((j : String)
              → has_worker after j
                ≡ has_worker hs j
                  || has_key saved j
                  || has_key (ids (filter_markets cfg clock markets)) j))

  -- If no market has two workers, then none has two after a round; and the round starts no worker, or
  -- the storage and the exchange answered and the running markets are those that ran before, the saved
  -- ones and those of the answer that the filter keeps.
  pub process_markets-IsRound :
      {D : Type 0} ⦃d : Decimal D⦄ (cfg : Config D) (clock : ℕ → ℕ)
      (answer : Fallible (List Market)) (st : S) (hs : List Handle)
      → IsSingle hs
      → let after = (process_markets cfg clock answer (st, hs)).1 in
        IsSingle after × IsRound cfg clock answer st hs after
  unfolding process_markets on_answers slice_existence_map
  process_markets-IsRound cfg clock answer st hs u =
      on_saved (storage.get_planned_and_active_markets st) answer refl refl
    where
      started :
          (saved : List String) (markets : List Market) (r : S × Fallible (List String))
          → storage.get_planned_and_active_markets st ≡ ok saved
          → answer ≡ ok markets
          → IsToStart (has_key saved) (filter_markets cfg clock markets) saved r
          → IsSingle (start_inserted hs r).1
            × IsRound cfg clock answer st hs (start_inserted hs r).1
      started saved markets (st', fails) e1 e2 h = (u, inl refl)
      started saved markets (st', ok ys) e1 e2 h = (
        start_workers-IsSingle ys hs u,
        inr (saved, markets, e1, e2, λ j. ground (arith, h j, has_worker-start_workers ys hs j)),
      )

      on_saved :
          (q : Fallible (List String)) (a : Fallible (List Market))
          → storage.get_planned_and_active_markets st ≡ q
          → answer ≡ a
          → let after = (on_answers cfg clock st hs q a).1 in
            IsSingle after × IsRound cfg clock answer st hs after
      on_saved fails a e1 e2 = (u, inl refl)
      on_saved (ok saved) fails e1 e2 = (u, inl refl)
      on_saved (ok saved) (ok markets) e1 e2 =
          started saved markets _ e1 e2
            (insert_new-IsToStart (has_key saved) (filter_markets cfg clock markets) saved st)
