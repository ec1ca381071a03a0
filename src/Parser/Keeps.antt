-- ===== src/Parser/Keeps.antt =====
-- Invariants of the parser's functions, one rule for each way to build a function.
use slp.Parser.State.{Parser, Do, pure, gets, ◌>>=◌}
use slp.Prelude.{◌≡◌, refl, Bool, true, false, Option, some, none, if◌then◌else◌}

-- From a state with `P` the function comes to a state with `Q`.
pub record Leads (P Q : Parser → Type 0) {A : Type 0} (m : Do A) : Type 0 where
  pub at : (p : Parser) → P p → Q (m p).1

abbrev pub Keeps : (Parser → Type 0) → {A : Type 0} → Do A → Type 0
Keeps P m = Leads P P m

pub if-both :
    {A : Type 0} (P : A → Type 0) (b : Bool) (x y : A) → P x → P y → P (if b then x else y)
if-both P true x y h k = h
if-both P false x y h k = k

module _ {P : Parser → Type 0} {A : Type 0} where
  pub Leads-pure : (a : A) → Leads P P (pure a)
  unfolding pure
  Leads-pure a = record { at = λ p h. h }

  pub Leads-gets : (f : Parser → A) → Leads P P (gets f)
  unfolding gets
  Leads-gets f = record { at = λ p h. h }

module _ {P Q : Parser → Type 0} {A : Type 0} where
  pub Leads-if :
      (b : Bool) (m n : Do A)
      → (b ≡ true → Leads P Q m)
      → (b ≡ false → Leads P Q n)
      → Leads P Q (if b then m else n)
  Leads-if true m n km kn = km refl
  Leads-if false m n km kn = kn refl

  pub Leads-option :
      {B : Type 0} (r : Option B) (m : Do A) (f : B → Do A)
      → Leads P Q m
      → ((b : B) → Leads P Q (f b))
      → Leads P Q (elim r [ none ↦ m | some b ↦ f b ])
  Leads-option none m f hm hf = hm
  Leads-option (some b) m f hm hf = hf b

module _ {P Q R : Parser → Type 0} {A B : Type 0} where
  pub Leads-bind :
      (m : Do A) (f : A → Do B) → Leads P Q m → ((a : A) → Leads Q R (f a)) → Leads P R (m >>= f)
  unfolding ◌>>=◌
  Leads-bind m f km kf = record { at = λ p h. (kf (m p).0).at (m p).1 (km.at p h) }

module _ {P : Parser → Type 0} {A B : Type 0} where
  pub Keeps-bind :
      (m : Do A) (f : A → Do B) → Keeps P m → ((a : A) → Keeps P (f a)) → Keeps P (m >>= f)
  Keeps-bind m f km kf = Leads-bind m f km kf

  -- What was read holds of the state that it was read from.
  pub Leads-bind-gets :
      {Q : Parser → Type 0} (f : Parser → A) (k : A → Do B)
      → ((p : Parser) → P p → Q (k (f p) p).1)
      → Leads P Q (gets f >>= k)
  unfolding ◌>>=◌ gets
  Leads-bind-gets f k h = record { at = h }

pub ruleset keeps_rules = (Leads-pure, Leads-gets, Leads-if, Leads-option, Keeps-bind)
