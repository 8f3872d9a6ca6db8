-- ===== src/Tests/Order.antt =====
-- Lists in lexicographic order, for the names of the test network.
use round_sync.Base.{
  ℕ, ◌≡◌, refl, ◌↔◌, Bool, true, false, List, [], ◌∷◌, arith, if◌then◌else◌, ltb, ◌==◌,
}

pub record Order (A : Type 0) : Type 0 where
  pub eq : A → A → Bool
  pub eq_iff : (a b : A) → (eq a b ≡ true) ↔ (a ≡ b)
  pub lt : A → A → Bool
  pub lt_irrefl : (a : A) → lt a a ≡ false
  pub lt_trans : (a b c : A) → lt a b ≡ true → lt b c ≡ true → lt a c ≡ true
  pub lt_total : (a b : A) → lt a b ≡ false → lt b a ≡ false → a ≡ b

pub number_eq_iff : (a b : ℕ) → ((a == b) ≡ true) ↔ (a ≡ b)
number_eq_iff a b = ground arith

pub number_lt_trans : (a b c : ℕ) → ltb a b ≡ true → ltb b c ≡ true → ltb a c ≡ true
number_lt_trans a b c = ground arith

pub number_lt_total : (a b : ℕ) → ltb a b ≡ false → ltb b a ≡ false → a ≡ b
number_lt_total a b = ground arith

pub number_lt_irrefl : (a : ℕ) → ltb a a ≡ false
number_lt_irrefl a = ground arith

abbrev pub number_order : Order ℕ
number_order = record {
  eq = ◌==◌;
  eq_iff = number_eq_iff;
  lt = ltb;
  lt_irrefl = number_lt_irrefl;
  lt_trans = number_lt_trans;
  lt_total = number_lt_total;
}

module _ {A : Type 0} (o : Order A) where
  abbrev pub list_eq : List A → List A → Bool
  list_eq [] [] = true
  list_eq [] (y ∷ ys) = false
  list_eq (x ∷ xs) [] = false
  list_eq (x ∷ xs) (y ∷ ys) = if o.eq x y then list_eq xs ys else false

  abbrev pub list_lt : List A → List A → Bool
  list_lt [] [] = false
  list_lt [] (y ∷ ys) = true
  list_lt (x ∷ xs) [] = false
  list_lt (x ∷ xs) (y ∷ ys) = if o.lt x y then true else if o.eq x y then list_lt xs ys else false

  list_eq_refl : (xs : List A) → list_eq xs xs ≡ true
  list_eq_refl [] = refl
  list_eq_refl (x ∷ xs) = rw ((o.eq_iff x x).1 refl) (list_eq_refl xs)

  list_eq_sound : (xs ys : List A) → list_eq xs ys ≡ true → xs ≡ ys
  list_eq_sound [] [] h = refl
  list_eq_sound [] (y ∷ ys) h = cc
  list_eq_sound (x ∷ xs) [] h = cc
  list_eq_sound (x ∷ xs) (y ∷ ys) h = ground (arith, o.eq_iff x y, list_eq_sound xs ys)

  pub list_eq_iff : (xs ys : List A) → (list_eq xs ys ≡ true) ↔ (xs ≡ ys)
  list_eq_iff xs ys = (list_eq_sound xs ys, λ e. subst_eq xs ys e)
    where
      subst_eq : (xs ys : List A) → xs ≡ ys → list_eq xs ys ≡ true
      subst_eq xs ys e = rw e (list_eq_refl ys)

  pub list_lt_irrefl : (xs : List A) → list_lt xs xs ≡ false
  list_lt_irrefl [] = refl
  list_lt_irrefl (x ∷ xs) = ground (arith, o.lt_irrefl x, list_lt_irrefl xs)

  pub list_lt_trans :
      (xs ys zs : List A) → list_lt xs ys ≡ true → list_lt ys zs ≡ true → list_lt xs zs ≡ true
  list_lt_trans [] [] zs h k = cc
  list_lt_trans [] (y ∷ ys) [] h k = cc
  list_lt_trans [] (y ∷ ys) (z ∷ zs) h k = refl
  list_lt_trans (x ∷ xs) [] zs h k = cc
  list_lt_trans (x ∷ xs) (y ∷ ys) [] h k = cc
  list_lt_trans (x ∷ xs) (y ∷ ys) (z ∷ zs) h k =
      ground
        (arith, o.eq_iff x y, o.eq_iff y z, o.eq_iff x z, o.lt_trans x y z, list_lt_trans xs ys zs)

  pub list_lt_total : (xs ys : List A) → list_lt xs ys ≡ false → list_lt ys xs ≡ false → xs ≡ ys
  list_lt_total [] [] h k = refl
  list_lt_total [] (y ∷ ys) h k = cc
  list_lt_total (x ∷ xs) [] h k = cc
  list_lt_total (x ∷ xs) (y ∷ ys) h k =
      ground (arith, o.eq_iff x y, o.eq_iff y x, o.lt_total x y, list_lt_total xs ys)

  abbrev pub list_order : Order (List A)
  list_order = record {
    eq = list_eq;
    eq_iff = list_eq_iff;
    lt = list_lt;
    lt_irrefl = list_lt_irrefl;
    lt_trans = list_lt_trans;
    lt_total = list_lt_total;
  }
