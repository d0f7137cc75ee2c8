-- ===== src/Tools/Planning/Members.antt =====
-- Which requests a plan holds (tools/registry.go).
use polka.Base.{norm, trim, true, false, ◌||◌}
use polka.Base.{some, List, [], ◌∷◌}
use polka.Base.{◌≡◌, refl, ap, ap₂, ◌∙◌, arith}
use polka.Base.Dict.{lookup}
use mathlib.Core.List.{Perm, Permᴰ}
use mathlib.Core.Logic.{∥∥₁_elim}
use polka.Tools.Layers.{is_remaining}
use polka.Tools.Layers.Order.{or_left_comm, is_remaining-permᴰ}
use polka.Base.{◌==◌, Bool, ◌&&◌, ◌++◌}
use polka.Base.Dict.{Dict, NodupKeys}
use polka.Base.{none, Text, All, not}
use polka.Tools.Planning.{values}
use polka.Tools.Registry.{InstallRequest}
use polka.Tools.Planning.{named}

-- whether a request is among others, with its tool in normal form and its version trimmed
abbrev pub is_planned : InstallRequest → List InstallRequest → Bool
is_planned q [] = false
is_planned q (x ∷ xs) = (x.tool == norm q.tool && x.version == trim q.version) || is_planned q xs

pub is_planned-append :
    (q : InstallRequest) (xs ys : List InstallRequest)
    → is_planned q (xs ++ ys) ≡ (is_planned q xs || is_planned q ys)
is_planned-append q [] ys = refl
is_planned-append q (x ∷ xs) ys = ground (arith, is_planned-append q xs ys)

-- a tool that is not there is not there with a version either
pub is_planned-remaining :
    (q : InstallRequest) (xs : List InstallRequest)
    → is_remaining (norm q.tool) xs ≡ false
    → is_planned q xs ≡ false
is_planned-remaining q [] h = refl
is_planned-remaining q (x ∷ xs) h = ground (arith, is_planned-remaining q xs)

pub is_planned-lookup :
    (q : InstallRequest) (m : Dict InstallRequest)
    → lookup (norm q.tool) m ≡ some (named (norm q.tool) q)
    → is_planned q (values m) ≡ true
unfolding lookup values
is_planned-lookup q [] h = cc
is_planned-lookup q ((k, p) ∷ m) h = ground (arith, is_planned-lookup q m)

is_planned-permᴰ :
    (q : InstallRequest) {xs ys : List InstallRequest}
    → Permᴰ xs ys
    → is_planned q xs ≡ is_planned q ys
is_planned-permᴰ q Permᴰ.nil = refl
is_planned-permᴰ q (Permᴰ.cons e p) =
    ap₂ (λ (x : InstallRequest) b. (x.tool == norm q.tool && x.version == trim q.version) || b) e
      (is_planned-permᴰ q p)
is_planned-permᴰ q (Permᴰ.swap {a = x} {b = y} {l = l} e f) =
    let is = λ (z : InstallRequest). z.tool == norm q.tool && z.version == trim q.version in
    or_left_comm (is x) (is y) (is_planned q l)
    ∙ ap₂ (λ (z w : InstallRequest). is z || (is w || is_planned q l)) f e
is_planned-permᴰ q (Permᴰ.trans p p') = is_planned-permᴰ q p ∙ is_planned-permᴰ q p'

pub is_planned-perm :
    (q : InstallRequest) {xs ys : List InstallRequest}
    → Perm xs ys
    → is_planned q xs ≡ is_planned q ys
is_planned-perm q p = ∥∥₁_elim p (hlevel) (is_planned-permᴰ q)

-- whether no tool is requested twice
abbrev pub is_distinct : List InstallRequest → Bool
is_distinct [] = true
is_distinct (x ∷ xs) = not (is_remaining x.tool xs) && is_distinct xs

tool_equal_sym : (s t : Text) → (s == t) ≡ (t == s)
tool_equal_sym s t = ground arith

is_distinct-swap :
    (x y : InstallRequest) (l : List InstallRequest)
    → is_distinct (x ∷ y ∷ l) ≡ is_distinct (y ∷ x ∷ l)
is_distinct-swap x y l = ground (arith, tool_equal_sym x.tool y.tool)

is_distinct-permᴰ : {xs ys : List InstallRequest} → Permᴰ xs ys → is_distinct xs ≡ is_distinct ys
is_distinct-permᴰ Permᴰ.nil = refl
is_distinct-permᴰ (Permᴰ.cons {a = x} {l₂ = ys} e p) =
    ap₂ (λ b c. not b && c)
      (is_remaining-permᴰ x.tool p ∙ ap (λ (z : InstallRequest). is_remaining z.tool ys) e)
      (is_distinct-permᴰ p)
is_distinct-permᴰ (Permᴰ.swap {a = x} {b = y} {l = l} e f) =
    is_distinct-swap x y l ∙ ap₂ (λ (z w : InstallRequest). is_distinct (z ∷ w ∷ l)) f e
is_distinct-permᴰ (Permᴰ.trans p q) = is_distinct-permᴰ p ∙ is_distinct-permᴰ q

pub is_distinct-perm : {xs ys : List InstallRequest} → Perm xs ys → is_distinct xs ≡ is_distinct ys
is_distinct-perm p = ∥∥₁_elim p (hlevel) is_distinct-permᴰ

module _ {κ} (P : Text × InstallRequest → Type κ)
    (tool : (k : Text) (q : InstallRequest) → P (k, q) → q.tool ≡ k) where
  is_remaining-missing :
      (k : Text) (m : Dict InstallRequest)
      → All P m
      → lookup k m ≡ none
      → is_remaining k (values m) ≡ false
  unfolding lookup values
  is_remaining-missing k [] a h = refl
  is_remaining-missing k ((j, q) ∷ m) (b, a) h =
      ground (arith, is_remaining-missing k m a, tool j q b)

  -- the entries of a map are distinct
  pub is_distinct-values :
      (m : Dict InstallRequest) → All P m → NodupKeys m → is_distinct (values m) ≡ true
  unfolding values
  is_distinct-values [] a u = refl
  is_distinct-values ((k, q) ∷ m) (b, a) (fresh, u) =
      ground (arith, is_remaining-missing k m a fresh, is_distinct-values m a u, tool k q b)
