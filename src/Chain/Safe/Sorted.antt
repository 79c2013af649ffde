-- ===== src/Chain/Safe/Sorted.antt =====
-- A sort of the owners as sort.Slice documents it, for the examples: insertion by the comparison.
use Prim.Native.String
use Prim.Native.String.{compare}
use Prim.Native.String.compare
use Prim.Native.Char.{code}
use Prim.Native.Nat.{Ordering, compare as compare_ℕ}
use mathlib.Core.List.{Perm}
use mathlib.Core.List.Perm
use package.text.Mathlib.Text.{is_lt}
use polymarket_go_bot.Prelude.{
  ℕ, sym, ap, ◌∙◌, String, ◌≡◌, Bool, true, false, List, [], ◌∷◌, arith, if◌then◌else◌, inl, inr,
  Bool-cases,
}
use polymarket_go_bot.Chain.Safe.{Sort, less_owner}
use polymarket_go_bot.Chain.Safe.Signed.{IsAscending, SortsAsDocumented}

-- The two orders of a comparison are opposite: where one is `lt` the other is not.
then_asymm :
    (m n : ℕ) (o o' : Ordering)
    → (is_lt o ≡ true → is_lt o' ≡ false)
    → is_lt (String.then (compare_ℕ m n) o) ≡ true
    → is_lt (String.then (compare_ℕ n m) o') ≡ false
then_asymm m n o o' rest h = ground arith

lt_asymm : (s t : String) → is_lt (compare s t) ≡ true → is_lt (compare t s) ≡ false
lt_asymm String.[] String.[] h = ap is_lt compare.nil-nil
lt_asymm String.[] (String.◌∷◌ d t) h = ap is_lt (compare.cons-nil d t)
lt_asymm (String.◌∷◌ c s) String.[] h =
    absurd (let gone : false ≡ true = sym (ap is_lt (compare.cons-nil c s)) ∙ h in ground arith)
lt_asymm (String.◌∷◌ c s) (String.◌∷◌ d t) h =
    ap is_lt (compare.cons-cons d c t s)
    ∙ then_asymm (code c) (code d) (compare s t) (compare t s) (lt_asymm s t)
        (sym (ap is_lt (compare.cons-cons c d s t)) ∙ h)

module _ {A : Type 0} (less : A → A → Bool) where
  abbrev pub insert : A → List A → List A
  insert x [] = x ∷ []
  insert x (y ∷ l) = let rest = insert x l in if less y x then y ∷ rest else x ∷ y ∷ l

  abbrev pub insertion_sort : List A → List A
  insertion_sort [] = []
  insertion_sort (x ∷ l) = insert x (insertion_sort l)

  insert-perm : (x : A) (l : List A) → Perm (insert x l) (x ∷ l)
  insert-perm x [] = Perm.refl _
  insert-perm x (y ∷ l) = go (less y x) (insert-perm x l)
    where
      go :
          (b : Bool)
          → Perm (insert x l) (x ∷ l)
          → Perm (if b then y ∷ insert x l else x ∷ y ∷ l) (x ∷ y ∷ l)
      go true rest = Perm.trans (Perm.cons y rest) (Perm.swap x y l)
      go false rest = Perm.refl _

  sort-perm : (l : List A) → Perm (insertion_sort l) l
  sort-perm [] = Perm.refl _
  sort-perm (x ∷ l) = Perm.trans (insert-perm x (insertion_sort l)) (Perm.cons x (sort-perm l))

  module _ (asymm : (a b : A) → less a b ≡ true → less b a ≡ false) where
    insert-IsAscending : (x : A) (l : List A) → IsAscending less l → IsAscending less (insert x l)
    insert-IsAscending x [] h = tt
    insert-IsAscending x (y ∷ []) h = elim (Bool-cases (less y x)) [
      | inl first ↦ rw first (asymm y x first, tt)
      | inr later ↦ rw later (later, tt)
    ]
    insert-IsAscending x (y ∷ z ∷ l) (h, hs) = elim (Bool-cases (less y x)) [
      | inr later ↦ rw later (later, (h, hs))
      | inl first ↦ rw first (elim (Bool-cases (less z x)) [
        | inl next_ ↦ rw next_ (h, (rw next_ at (insert-IsAscending x (z ∷ l) hs)))
        | inr stop ↦ rw stop (asymm y x first, (stop, hs))
      ])
    ]

    sort-IsAscending : (l : List A) → IsAscending less (insertion_sort l)
    sort-IsAscending [] = tt
    sort-IsAscending (x ∷ l) = insert-IsAscending x (insertion_sort l) (sort-IsAscending l)

abbrev pub sort : {K : Type 0} → Sort K
sort = insertion_sort

pub sort-SortsAsDocumented : {K : Type 0} → SortsAsDocumented {K = K} sort
sort-SortsAsDocumented owners = (
  sort-perm less_owner owners,
  sort-IsAscending less_owner (λ a b. lt_asymm a.addr b.addr) owners,
)
