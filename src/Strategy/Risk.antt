-- ===== src/Strategy/Risk.antt =====
-- What `risk` and `simulateNewRisk` mean: the worst loss over the two outcomes, before and after a buy.
use mathlib.Core.Path.{subst}
use polymarket_go_bot.Prelude.{
  ◌≡◌, sym, ap, ◌∙◌, Bool, true, false, arith, inl, inr, ◌⊎◌, if◌then◌else◌,
}
use polymarket_go_bot.Prelude.Go.{returns, Returns, Returns-value}
use polymarket_go_bot.Decimal.{Decimal, IsDecimal, dec_zero, dec_one, ◌≼◌, ◌≺◌}
use polymarket_go_bot.Decimal.Laws
use polymarket_go_bot.Strategy.{min_dec, risk, new_average, simulate_new_risk}

module _ {D : Type 0} ⦃d : Decimal D⦄ where
  open d use {add, sub, mul, div, less_than}

  -- Money paid for a position.
  abbrev pub cost : D → D → D → D → D
  cost q_up p_up q_down p_down = add (mul q_up p_up) (mul q_down p_down)

  -- A contract of the outcome that happens pays one dollar: what is lost if `paid` of them pay.
  abbrev pub loss : D → D → D
  loss spent paid = sub spent paid

  -- The two differ by no more than `slack`.
  abbrev pub IsNear : D → D → D → Type 0
  IsNear slack a b = (a ≼ add b slack) × (b ≼ add a slack)

  -- Up to `slack`, neither outcome of a position that has cost `spent` loses more than `worst`, and one
  -- of the two loses no less.
  abbrev pub IsWorst : (slack spent q_up q_down : D) → D → Type 0
  IsWorst slack spent q_up q_down worst =
      (loss spent q_up ≼ add worst slack)
      × (loss spent q_down ≼ add worst slack)
      × ((worst ≼ add (loss spent q_up) slack) ⊎ (worst ≼ add (loss spent q_down) slack))

module _ {D : Type 0} ⦃d : Decimal D⦄ (laws : IsDecimal D) where
  open d use {add, sub, mul, div, less_than}

  min_dec-le : (a b : D) → (min_dec a b ≼ a) × (min_dec a b ≼ b)
  unfolding min_dec
  min_dec-le a b = ground (arith, Laws.le_refl laws a, Laws.le_refl laws b, laws.lt_asymm a b)

  min_dec-cases : (a b : D) → (min_dec a b ≡ a) ⊎ (min_dec a b ≡ b)
  unfolding min_dec
  min_dec-cases a b = ground arith

  -- The risk of a position is its worst loss: no outcome loses more, and one of the two loses that.
  pub risk_worst_loss :
      (q_up p_up q_down p_down : D)
      → let spent = cost q_up p_up q_down p_down in
        let worst = risk q_up p_up q_down p_down in
        (loss spent q_up ≼ worst)
        × (loss spent q_down ≼ worst)
        × ((worst ≡ loss spent q_up) ⊎ (worst ≡ loss spent q_down))
  unfolding risk
  risk_worst_loss q p r s = (
    Laws.sub_antitone laws _ q _ (min_dec-le q r).0,
    Laws.sub_antitone laws _ r _ (min_dec-le q r).1,
    elim (min_dec-cases q r) [
      | inl e ↦ inl (ap (sub (cost q p r s)) e)
      | inr e ↦ inr (ap (sub (cost q p r s)) e)
    ],
  )

  min_dec_self : (a : D) → min_dec a a ≡ a
  unfolding min_dec
  min_dec_self a = ground arith

  -- Equal quantities bought at prices that add up to a dollar carry no risk.
  pub risk_hedged :
      (q p_up p_down : D) → add p_up p_down ≡ dec_one → risk q p_up q p_down ≡ dec_zero
  unfolding risk
  risk_hedged q p s e =
      ap (sub (cost q p q s)) (min_dec_self q)
      ∙ ap (λ t. sub t q) (sym (laws.mul-add q p s) ∙ ap (mul q) e ∙ laws.mul-one q)
      ∙ Laws.sub_self laws q

  -- The position has money in it already, or the buy puts some in.
  bought_pos : (q b : D) → dec_zero ≼ q → dec_zero ≺ b → dec_zero ≺ add q b
  bought_pos q b h k =
      Laws.lt_of_lt_of_le laws _ b _ k (rw (laws.add_comm q b) (Laws.le-add laws b q h))

  pub new_average-returns :
      (q p b pb : D)
      → dec_zero ≼ q
      → dec_zero ≺ b
      → new_average q p b pb ≡ returns (div (add (mul q p) (mul b pb)) (add q b))
  unfolding new_average
  new_average-returns q p b pb h k = rw (Laws.is_zero-pos laws (add q b) (bought_pos q b h k))

  add_right_comm : (a b c : D) → add (add a b) c ≡ add (add a c) b
  add_right_comm a b c =
      laws.add_assoc a b c ∙ ap (add a) (laws.add_comm b c) ∙ sym (laws.add_assoc a c b)

  IsNear-add : (a b c slack : D) → IsNear slack a b → IsNear slack (add a c) (add b c)
  IsNear-add a b c slack (h, k) = (
    subst (λ t. add a c ≼ t) (add_right_comm b slack c) (laws.add_le a (add b slack) c h),
    subst (λ t. add b c ≼ t) (add_right_comm a slack c) (laws.add_le b (add a slack) c k),
  )

  IsNear-sub : (a b c slack : D) → IsNear slack a b → IsNear slack (sub a c) (sub b c)
  IsNear-sub a b c slack h =
      rw (Laws.sub-eq-add laws a c, Laws.sub-eq-add laws b c)
        (IsNear-add a b (sub dec_zero c) slack h)

  -- Money in one side after the buy, by its average: what was paid, up to the rounding of the average.
  average-IsNear :
      (q p b pb : D)
      → dec_zero ≺ add q b
      → IsNear
          (mul (add q b) laws.ulp)
          (mul (add q b) (div (add (mul q p) (mul b pb)) (add q b)))
          (add (mul q p) (mul b pb))
  average-IsNear q p b pb h = (laws.mul-div-le _ _ h, laws.le-mul-div _ _ h)

  -- The risk of a position whose cost is nearly `spent`.
  risk-IsWorst :
      (q_up p_up q_down p_down spent slack : D)
      → IsNear slack (cost q_up p_up q_down p_down) spent
      → IsWorst slack spent q_up q_down (risk q_up p_up q_down p_down)
  risk-IsWorst q p r s spent slack near =
      let (up, down, one) = risk_worst_loss q p r s in
      let near_up = IsNear-sub (cost q p r s) spent q slack near in
      let near_down = IsNear-sub (cost q p r s) spent r slack near in
      (
        laws.le_trans _ _ _ near_up.1 (laws.add_le _ _ slack up),
        laws.le_trans _ _ _ near_down.1 (laws.add_le _ _ slack down),
        elim one [
          | inl e ↦ inl (subst (λ t. t ≼ add (sub spent q) slack) (sym e) near_up.0)
          | inr e ↦ inr (subst (λ t. t ≼ add (sub spent r) slack) (sym e) near_down.0)
        ],
      )

  -- For a buy of a positive size of Up, or of Down, on a position that is not short, the simulation
  -- comes back, with the worst loss of the position that holds the bought contracts and has paid for
  -- them, up to the rounding of one division: neither outcome loses more, and one of the two loses no
  -- less.
  pub simulate_new_risk_sound :
      (q_up p_up q_down p_down : D) (buy_up : Bool) (q_buy p_buy : D)
      → dec_zero ≼ q_up
      → dec_zero ≼ q_down
      → dec_zero ≺ q_buy
      → let spent = add (cost q_up p_up q_down p_down) (mul q_buy p_buy) in
        let q_up2 = if buy_up then add q_up q_buy else q_up in
        let q_down2 = if buy_up then q_down else add q_down q_buy in
        let slack = mul (if buy_up then q_up2 else q_down2) laws.ulp in
        Returns
          (IsWorst slack spent q_up2 q_down2)
          (simulate_new_risk q_up p_up q_down p_down buy_up q_buy p_buy)
  unfolding simulate_new_risk
  simulate_new_risk_sound q p r s true b pb hq hr hb = rw (new_average-returns q p b pb hq hb) (
      risk-IsWorst (add q b) _ r s _ _ (
        subst
          (IsNear (mul (add q b) laws.ulp)
            (cost (add q b) (div (add (mul q p) (mul b pb)) (add q b)) r s))
          (add_right_comm _ _ _)
          (IsNear-add _ _ (mul r s) _ (average-IsNear q p b pb (bought_pos q b hq hb)))))
  simulate_new_risk_sound q p r s false b pb hq hr hb = rw (new_average-returns r s b pb hr hb) (
      risk-IsWorst q p (add r b) _ _ _ (
        subst (λ t. IsNear (mul (add r b) laws.ulp) t (add (cost q p r s) (mul b pb)))
          (laws.add_comm _ _)
          (subst (IsNear (mul (add r b) laws.ulp) _)
            (laws.add_comm _ _ ∙ sym (laws.add_assoc _ _ _))
            (IsNear-add _ _ (mul q p) _ (average-IsNear r s b pb (bought_pos r b hr hb))))))

  -- On such a position the simulation has a result.
  pub simulate_new_risk-returns :
      (q_up p_up q_down p_down : D) (buy_up : Bool) (q_buy p_buy : D)
      → dec_zero ≼ q_up
      → dec_zero ≼ q_down
      → dec_zero ≺ q_buy
      → (r : D) × (simulate_new_risk q_up p_up q_down p_down buy_up q_buy p_buy ≡ returns r)
  simulate_new_risk-returns q p r s up b pb hq hr hb =
      let (value, e, _) =
        Returns-value _ (simulate_new_risk q p r s up b pb)
          (simulate_new_risk_sound q p r s up b pb hq hr hb) in
      (value, e)
