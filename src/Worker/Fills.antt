-- ===== src/Worker/Fills.antt =====
-- internal/engine/worker.go: what a fill does to the position and to its risk.
use polymarket_go_bot.Prelude.{◌≡◌, refl, sym, ap, ◌∙◌, Bool, true, false, inl, inr, Bool-cases}
use polymarket_go_bot.Prelude.Go.{returns, ◌>>=◌, >>=_assoc, Returns, Returns-bind}
use polymarket_go_bot.Decimal.{Decimal, IsDecimal, dec_zero, ◌≼◌, ◌≺◌}
use polymarket_go_bot.Decimal.Laws
use polymarket_go_bot.Strategy.{risk, simulate_new_risk, new_average}
use polymarket_go_bot.Strategy.Bounds.{div_nonneg}
use polymarket_go_bot.Worker.{MarketWorker}
use polymarket_go_bot.Worker.Ready.{IsConfigured, IsLong}
use polymarket_go_bot.Worker.Tick.{filled_price, fill}

module _ {D : Type 0} ⦃d : Decimal D⦄ where
  -- Settings in order and a position not short: what each tick keeps.
  abbrev pub IsSound : MarketWorker D → Type 0
  IsSound w = IsConfigured w × IsLong w

module _ {D : Type 0} ⦃d : Decimal D⦄ (laws : IsDecimal D) where
  open d use {add, sub, mul, div, is_zero}

  abbrev risk_of : MarketWorker D → D
  risk_of w = risk w.q_up w.p_up w.q_down w.p_down

  is_zero-eq : (a : D) → is_zero a ≡ true → a ≡ dec_zero
  is_zero-eq a h = (laws.is_zero_iff a).0 h

  -- The average that the fill keeps is the one that the simulation took.
  filled_price-eq :
      (q p size price : D)
      → dec_zero ≼ q
      → dec_zero ≺ size
      → div (mul size price) size ≡ price
      → filled_price q p size price ≡ new_average q p size price
  unfolding filled_price new_average
  filled_price-eq q p size price hq hs exact =
      let sum_pos =
        Laws.lt_of_lt_of_le laws _ size (add q size) hs
          (rw (laws.add_comm q size) (Laws.le-add laws size q hq)) in
      elim (Bool-cases (is_zero q)) [
        | inl z ↦
            rw (z, Laws.is_zero-pos laws (add q size) sum_pos)
              (ap returns (
                sym exact
                ∙ sym (
                    ap (λ t. div t size)
                      (ap (λ t. add t (mul size price)) (Laws.zero-mul laws p)
                        ∙ Laws.zero-add laws _))
                ∙ sym (ap (div (add (mul dec_zero p) (mul size price))) (Laws.zero-add laws size))
                ∙ ap (λ t. div (add (mul t p) (mul size price)) (add t size))
                    (sym (is_zero-eq q z))))
        | inr n ↦ rw (n, Laws.is_zero-pos laws (add q size) sum_pos) refl
      ]

  -- The risk of the position after a fill is the risk that was simulated for it, if the price is the
  -- exact quotient of what a positive size costs, on a position that is not short.
  pub risk-fill :
      (w : MarketWorker D) (buy_up : Bool) (size price : D)
      → IsLong w
      → dec_zero ≺ size
      → div (mul size price) size ≡ price
      → (fill buy_up size price w >>= λ w'. returns (risk w'.q_up w'.p_up w'.q_down w'.p_down))
        ≡ simulate_new_risk w.q_up w.p_up w.q_down w.p_down buy_up size price
  unfolding fill simulate_new_risk
  risk-fill w true size price l hs exact =
      rw (filled_price-eq w.q_up w.p_up size price l.q_up_nonneg hs exact)
        (>>=_assoc (new_average w.q_up w.p_up size price) _ _)
  risk-fill w false size price l hs exact =
      rw (filled_price-eq w.q_down w.p_down size price l.q_down_nonneg hs exact)
        (>>=_assoc (new_average w.q_down w.p_down size price) _ _)

  filled_price-nonneg :
      (q p size price : D)
      → dec_zero ≼ q
      → dec_zero ≼ p
      → dec_zero ≼ size
      → dec_zero ≼ price
      → Returns (λ r. dec_zero ≼ r) (filled_price q p size price)
  unfolding filled_price
  filled_price-nonneg q p size price hq hp hs hr = elim (Bool-cases (is_zero q)) [
    | inl z ↦ rw z hr
    | inr n ↦
        let q_pos = Laws.pos_of_nonneg_of_ne laws q hq (λ e. cc (n, (laws.is_zero_iff q).1 e)) in
        let sum_pos =
          Laws.lt_of_lt_of_le laws _ q (add q size) q_pos (Laws.le-add laws q size hs) in
        rw (n, Laws.is_zero-pos laws (add q size) sum_pos)
          (div_nonneg laws _ _ sum_pos (
            Laws.add_nonneg laws _ _ (laws.mul_nonneg q p hq hp)
              (laws.mul_nonneg size price hs hr)))
  ]

  same_settings :
      (w : MarketWorker D) (q_up p_up q_down p_down : D)
      → IsConfigured w
      → IsConfigured (record w { q_up = q_up; p_up = p_up; q_down = q_down; p_down = p_down })
  same_settings w q p r s c = record {
    min_size_pos = c.min_size_pos;
    k_le = c.k_le;
    alpha_nonneg = c.alpha_nonneg;
    tau_le = c.tau_le;
    eps_le = c.eps_le;
  }

  -- A fill of a size and at a price that are not negative comes back, with a position not short.
  pub fill-IsSound :
      (w : MarketWorker D) (buy_up : Bool) (size price : D)
      → IsSound w
      → dec_zero ≼ size
      → dec_zero ≼ price
      → Returns IsSound (fill buy_up size price w)
  unfolding fill
  fill-IsSound w true size price (c, l) hs hp =
      Returns-bind (λ r. dec_zero ≼ r) IsSound (filled_price w.q_up w.p_up size price) _
        (filled_price-nonneg w.q_up w.p_up size price l.q_up_nonneg l.p_up_nonneg hs hp)
        λ p h. (
          same_settings w _ _ _ _ c,
          record {
            q_up_nonneg = Laws.add_nonneg laws w.q_up size l.q_up_nonneg hs;
            p_up_nonneg = h;
            q_down_nonneg = l.q_down_nonneg;
            p_down_nonneg = l.p_down_nonneg;
          },
        )
  fill-IsSound w false size price (c, l) hs hp =
      Returns-bind (λ r. dec_zero ≼ r) IsSound (filled_price w.q_down w.p_down size price) _
        (filled_price-nonneg w.q_down w.p_down size price l.q_down_nonneg l.p_down_nonneg hs hp)
        λ p h. (
          same_settings w _ _ _ _ c,
          record {
            q_up_nonneg = l.q_up_nonneg;
            p_up_nonneg = l.p_up_nonneg;
            q_down_nonneg = Laws.add_nonneg laws w.q_down size l.q_down_nonneg hs;
            p_down_nonneg = h;
          },
        )
