-- ===== src/Worker/Decision.antt =====
-- internal/engine/worker.go: what one decision of the algorithm changes and asks for.
use mathlib.Core.Path.{subst}
use polymarket_go_bot.Prelude.{
  ℕ, zero, suc, refl, sym, ap, ◌∙◌, Bool, true, false, none, inl, inr, arith, Bool-cases,
  if◌then◌else◌,
}
use polymarket_go_bot.Prelude.Int.{pos, sub_ℕ}
use polymarket_go_bot.Prelude.Go.{returns, ◌>>=◌, Returns, Returns-bind, Returns-mono}
use polymarket_go_bot.Decimal.{Decimal, IsDecimal, dec_zero, dec_one, dec_two, dec_half, ◌≼◌, ◌≺◌}
use polymarket_go_bot.Decimal.Laws
use polymarket_go_bot.Strategy.{p_fair, money_tilt, target_tilt, eps_tte}
use polymarket_go_bot.Strategy.Bounds.{
  IsBetween, two_pos, div_nonneg, p_fair-IsBetween, money_tilt-IsBetween, target_tilt-IsBetween,
  eps_tte-IsBetween,
}
use polymarket_go_bot.Strategy.Price.{choose_limit_price-IsBetween}
use polymarket_go_bot.Worker.{
  MarketWorker, Readings, milliseconds, is_greater, signal, buys_up, limit_price, shrink, evaluate,
  size_order, decide, process_new_market_state,
}
use polymarket_go_bot.Worker.Sizing.{size_above, IsSized, is_less-cmp, shrink-IsSized}
use polymarket_go_bot.Worker.Ready.{
  IsAtLeast, IsConfigured, IsLong, IsQuoted, IsUpdate, IsEvaluated, bid_of, IsDecided,
  IsWithinSteps, IsReady,
}

module _ {D : Type 0} ⦃d : Decimal D⦄ (laws : IsDecimal D) where
  open d use {add, sub, mul, div, from_int}

  mid_nonneg : (a b : D) → dec_zero ≺ b → b ≼ a → dec_zero ≼ div (add a b) dec_two
  mid_nonneg a b h k =
      let bid = laws.lt_asymm dec_zero b h in
      div_nonneg laws (add a b) dec_two (two_pos laws)
        (Laws.add_nonneg laws a b (laws.le_trans dec_zero b a bid k) bid)

  -- The evaluation comes back with the risk of the position.
  pub evaluate-IsUpdate :
      (w : MarketWorker D)
      → IsConfigured w
      → IsLong w
      → IsQuoted w
      → Returns (IsEvaluated w) (evaluate w)
  unfolding evaluate
  evaluate-IsUpdate w c l b =
      let up = mid_nonneg w.ask_up w.bid_up b.bid_up_pos b.up_le in
      let down = mid_nonneg w.ask_down w.bid_down b.bid_down_pos b.down_le in
      let mid_up = div (add w.ask_up w.bid_up) dec_two in
      let mid_down = div (add w.ask_down w.bid_down) dec_two in
      rw (Laws.is_zero-pos laws dec_two (two_pos laws)) (
        Returns-bind (IsBetween dec_zero dec_one) (IsEvaluated w) (p_fair mid_up mid_down) _
          (p_fair-IsBetween laws mid_up mid_down up down)
          λ p _.
            Returns-bind (IsBetween dec_zero dec_one) (IsEvaluated w)
              (money_tilt w.q_up mid_up w.q_down mid_down) _
              (money_tilt-IsBetween laws w.q_up mid_up w.q_down mid_down l.q_up_nonneg up
                l.q_down_nonneg down)
              λ money _.
                Returns-bind (IsBetween w.tau_min w.tau_max) (IsEvaluated w)
                  (target_tilt p w.tte w.market_time_ms w.k_min w.k_max w.alpha w.tau_min w.tau_max)
                  _
                  (target_tilt-IsBetween laws p w.tte w.market_time_ms w.k_min w.k_max w.alpha
                    w.tau_min w.tau_max c.k_le c.alpha_nonneg c.tau_le)
                  λ target _. (refl, refl))

  -- The limit price is at least the bid of the side that is bought.
  pub limit_price-le :
      (w : MarketWorker D)
      → IsConfigured w
      → IsQuoted w
      → Returns (λ p. bid_of w ≼ p) (limit_price w)
  unfolding limit_price
  limit_price-le w c b = elim (Bool-cases (buys_up w)) [
    | inl e ↦ rw e (
        Returns-mono (IsBetween _ _) _ _
          (choose_limit_price-IsBetween laws w.bid_up w.ask_up (signal w) w.tte w.market_time_ms
            w.k_min w.k_max w.alpha w.e_max b.up_le c.k_le c.alpha_nonneg)
          (λ p h. h.0))
    | inr e ↦ rw e (
        Returns-mono (IsBetween _ _) _ _
          (choose_limit_price-IsBetween laws w.bid_down w.ask_down (signal w) w.tte w.market_time_ms
            w.k_min w.k_max w.alpha w.e_max b.down_le c.k_le c.alpha_nonneg)
          (λ p h. h.0))
  ]

  min-le : (a b : D) → d.min a b ≼ a
  min-le a b = ground (arith, laws.min_lem a b, Laws.le_refl laws a, laws.lt_asymm b a)

  max-le : (a b c : D) → a ≼ c → b ≼ c → d.max a b ≼ c
  max-le a b c h k = ground (arith, laws.max_lem a b)

  min_size-le-size_above : (w : MarketWorker D) (n : ℕ) → w.min_size ≼ size_above w.min_size n
  min_size-le-size_above w zero = Laws.le_refl laws w.min_size
  min_size-le-size_above w (suc n) =
      laws.le_trans _ (size_above w.min_size n) _ (min_size-le-size_above w n)
        (Laws.le-add laws (size_above w.min_size n) dec_half (laws.lt_asymm _ _ laws.half_pos))

  pub bid_of-pos : (w : MarketWorker D) → IsQuoted w → dec_zero ≺ bid_of w
  bid_of-pos w b = ground (arith, b.bid_up_pos, b.bid_down_pos)

  step-bid_of :
      (w : MarketWorker D) (n : ℕ) (s : IsWithinSteps w n)
      → w.max_step_risk ≼ mul (from_int (pos s.top)) (bid_of w)
  step-bid_of w n s = elim (Bool-cases (buys_up w)) [
    | inl e ↦ rw e s.step_up
    | inr e ↦ rw e s.step_down
  ]

  -- What the loop starts from is at most `n` halves above the minimal size.
  start-le :
      (w : MarketWorker D) (n : ℕ) (price : D)
      → IsQuoted w
      → (s : IsWithinSteps w n) → bid_of w ≼ price
      → d.max (div (d.min w.max_step_risk (sub w.risk_limit w.risk_val)) price) w.min_size
        ≼ size_above w.min_size n
  start-le w n price b s h =
      max-le _ _ _
        (laws.le_trans _ (from_int (pos s.top)) _
          (laws.div-le s.top _ price (Laws.lt_of_lt_of_le laws _ _ _ (bid_of-pos w b) h) (
            laws.le_trans _ w.max_step_risk _ (min-le _ _) (
              laws.le_trans _ _ _ (step-bid_of w n s)
                (Laws.mul_le_left laws _ _ _ (Laws.from_int_nonneg laws s.top) h))))
          s.top_le)
        (min_size-le-size_above w n)

  -- A number that is no less than the bound is sent as one that is so up to half a cent.
  sent-IsAtLeast :
      (bound x : D) → dec_zero ≼ bound → bound ≼ x → IsAtLeast bound (d.string_fixed x 2)
  sent-IsAtLeast bound x h k =
      let (sent, parsed, near, _) =
        laws.string_fixed_near x 2 (laws.le_trans dec_zero bound x h k) in
      (sent, parsed, laws.le_trans _ _ _ k near)

  module _ (w : MarketWorker D) (n : ℕ) (now : Readings) (c : IsConfigured w) (l : IsLong w)
      (b : IsQuoted w) (s : IsWithinSteps w n) where
    abbrev fuel : ℕ
    fuel = suc (suc n)

    size_order-IsDecided :
        dec_zero ≼ sub w.risk_limit w.risk_val → Returns (IsDecided w) (size_order fuel now w)
    unfolding size_order
    size_order-IsDecided room =
        Returns-bind (λ p. bid_of w ≼ p) (IsDecided w) (limit_price w) _ (limit_price-le w c b)
          λ price h.
            rw (Laws.is_zero-pos laws price (Laws.lt_of_lt_of_le laws _ _ _ (bid_of-pos w b) h)) (
              Returns-bind (IsSized w price _) (IsDecided w) (shrink fuel w price _) _
                (shrink-IsSized laws w price l.q_up_nonneg l.q_down_nonneg c.min_size_pos n _
                  (start-le w n price b s h))
                λ q sized. rw (is_less-cmp laws q w.min_size) (elim sized.1 [
                  | inl small ↦ rw small (refl, tt)
                  | inr (big, within) ↦ rw big (
                    refl,
                    record {
                      size = q;
                      price = price;
                      size_text = refl;
                      price_text = refl;
                      size_sent =
                          sent-IsAtLeast w.min_size q (laws.lt_asymm _ _ c.min_size_pos) big;
                      price_sent =
                          sent-IsAtLeast (bid_of w) price (laws.lt_asymm _ _ (bid_of-pos w b)) h;
                      min_size_le = big;
                      bid_le = h;
                      headroom = room;
                      within = within;
                    },
                  )
                ]))

    -- Any worker that differs from `w` only in what a decision computes is one to decide on.
    decide-IsDecided : Returns (IsDecided w) (decide fuel now w)
    unfolding decide
    decide-IsDecided =
        rw (is_less-cmp laws (sub w.risk_limit w.risk_val) dec_zero)
          (elim (Bool-cases (d.less_than (sub w.risk_limit w.risk_val) dec_zero)) [
            | inl over ↦ rw over (refl, tt)
            | inr room ↦ rw room (
                Returns-bind (IsBetween w.eps_min w.eps_max) (IsDecided w)
                  (eps_tte w.tte w.market_time_ms w.eps_min w.eps_max) _
                  (eps_tte-IsBetween laws w.tte w.market_time_ms w.eps_min w.eps_max c.eps_le)
                  λ eps _. guards _ _ room)
          ])
      where
        guards :
            (quiet early : Bool)
            → dec_zero ≼ sub w.risk_limit w.risk_val
            → Returns (IsDecided w) (
                if quiet
                then returns (w, none)
                else if early
                then returns (w, none)
                else size_order fuel now w)
        guards true early room = (refl, tt)
        guards false true room = (refl, tt)
        guards false false room = size_order-IsDecided room

  IsUpdate-trans : (w w' w'' : MarketWorker D) → IsUpdate w w' → IsUpdate w' w'' → IsUpdate w w''
  IsUpdate-trans w w' w'' p q =
      q
      ∙ ap {A = MarketWorker D}
          (λ x. record x {
            tte = w''.tte;
            p_fair_val = w''.p_fair_val;
            money_tilt_val = w''.money_tilt_val;
            target_tilt_val = w''.target_tilt_val;
            risk_val = w''.risk_val;
            last_decision = w''.last_decision;
          })
          p

  pub update-IsReady : (w w' : MarketWorker D) (n : ℕ) → IsUpdate w w' → IsReady w n → IsReady w' n
  update-IsReady w w' n p r =
      subst (λ x. IsReady x n) (sym p)
        (record {
          configured = record {
            min_size_pos = r.configured.min_size_pos;
            k_le = r.configured.k_le;
            alpha_nonneg = r.configured.alpha_nonneg;
            tau_le = r.configured.tau_le;
            eps_le = r.configured.eps_le;
          };
          long = record {
            q_up_nonneg = r.long.q_up_nonneg;
            p_up_nonneg = r.long.p_up_nonneg;
            q_down_nonneg = r.long.q_down_nonneg;
            p_down_nonneg = r.long.p_down_nonneg;
          };
          quoted = record {
            bid_up_pos = r.quoted.bid_up_pos;
            bid_down_pos = r.quoted.bid_down_pos;
            up_le = r.quoted.up_le;
            down_le = r.quoted.down_le;
          };
          steps = record {
            top = r.steps.top;
            step_up = r.steps.step_up;
            step_down = r.steps.step_down;
            top_le = r.steps.top_le;
          };
        })

  -- For a configured worker with a position that is not short and a quoted book, and fuel for the
  -- steps between the minimal size and the largest start, a decision comes back, without a panic. It
  -- changes only what it computes. If it asks for an order, that is for a size of at least the minimal
  -- one, at a price at or above the bid of the side that is bought, with risk left, and with a
  -- simulated risk below the limit. The texts of the order are this size and this price to two
  -- decimals: the numbers that they give are at least the minimal size and the bid, up to half a cent.
  pub process_new_market_state-IsDecided :
      (w : MarketWorker D) (n : ℕ) (now : Readings)
      → IsReady w n
      → Returns (IsDecided w) (process_new_market_state (suc (suc n)) now w)
  unfolding process_new_market_state
  process_new_market_state-IsDecided w n now r =
      let w1 = record w { tte = d.from_int (milliseconds (sub_ℕ w.market.end_time now.at_tte)) } in
      let ready1 : IsReady w1 n = update-IsReady w w1 n refl r in
      go (is_greater (d.cmp w.stop_trade_tte_ms w1.tte)) w1 refl ready1
    where
      go :
          (stop : Bool) (w1 : MarketWorker D)
          → IsUpdate w w1
          → IsReady w1 n
          → Returns (IsDecided w) (
              if stop
              then returns (w1, none)
              else evaluate w1 >>= λ w2. decide (suc (suc n)) now w2)
      go true w1 u ready1 = (u, tt)
      go false w1 u ready1 =
          Returns-bind (IsEvaluated w1) (IsDecided w) (evaluate w1) _
            (evaluate-IsUpdate w1 ready1.configured ready1.long ready1.quoted)
            λ w2 e.
              let ready2 = update-IsReady w1 w2 n e.0 ready1 in
              Returns-mono (IsDecided w2) (IsDecided w) (decide (suc (suc n)) now w2)
                (decide-IsDecided w2 n now ready2.configured ready2.long ready2.quoted ready2.steps)
                λ r decided.
                  (IsUpdate-trans w w2 r.0 (IsUpdate-trans w w1 w2 u e.0) decided.0, decided.1)
