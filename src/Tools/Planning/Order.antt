-- ===== src/Tools/Planning/Order.antt =====
-- The order in which `visit` collects tools, and its steps (tools/registry.go).
use polka.Base.{Text, ◌==◌, Bool, true, false, ◌&&◌, ◌||◌}
use polka.Base.{Option, some, List, [], ◌∷◌, ◌++◌, if◌then◌else◌, ◌≡◌, refl, sym, ◌∙◌, subst}
use polka.Base.{All-map, arith, All}
use polka.Base.Dict.{Dict, insert, lookup_or}
use polka.Base.Dict.Laws.{lookup_or-insert, insert-All}
use polka.Base.Result.{ok}
use polka.Backend.State.{contains}
use polka.Config.Types.{Environment}
use polka.Tools.Registry.{InstallRequest, ToolPlugin, Registry}
use polka.Tools.Layers.{is_remaining}
use polka.Tools.Planning.{Collected, note_request, named, add_dependency, begin, finish}
use polka.Tools.Planning.{values}

abbrev pub seen : Text → Collected → Bool
seen k s = lookup_or false k s.visited

abbrev pub current : Text → Collected → Bool
current k s = lookup_or false k s.visiting

abbrev pub deps : Text → Collected → List Text
deps k s = lookup_or [] k s.dependencies

-- whether each of these is visited
abbrev pub all_seen : List Text → Collected → Bool
all_seen [] s = true
all_seen (d ∷ ds) s = seen d s && all_seen ds s

abbrev pub all_in : List Text → List Text → Bool
all_in [] ks = true
all_in (d ∷ ds) ks = contains d ks && all_in ds ks

-- each id depends only on ids behind it
abbrev pub IsTopological : List Text → Dict (List Text) → Type 0
IsTopological [] m = Unit
IsTopological (k ∷ ks) m = (all_in (lookup_or [] k m) ks ≡ true) × IsTopological ks m

-- the visited ids, last first, are in topological order; an id that has not been begun has no
-- dependencies yet; and what is requested is what is visited or being visited
pub record IsOrdered (s : Collected) : Type 0 where
  pub done : List Text
  pub done_iff : (k : Text) → contains k done ≡ seen k s
  pub topological : IsTopological done s.dependencies
  pub untouched : (k : Text) → seen k s ≡ false → current k s ≡ false → deps k s ≡ []
  pub known : All (λ (k, q). (q.tool ≡ k) × ((seen k s || current k s) ≡ true)) s.requests
  pub present :
      (k : Text) → (seen k s || current k s) ≡ true → is_remaining k (values s.requests) ≡ true

-- what a call changes: it may visit more ids, but none of those that are being visited; the
-- dependencies that are there stay but for those of `own`
pub record Extends (own : Text → Bool) (s u : Collected) : Type 0 where
  pub same : (k : Text) → current k u ≡ current k s
  pub stays : (k : Text) → seen k s ≡ true → seen k u ≡ true
  pub waits : (k : Text) → current k s ≡ true → seen k u ≡ seen k s
  pub keeps : (k : Text) → own k ≡ false → (seen k s || current k s) ≡ true → deps k u ≡ deps k s

-- the plugin has these dependencies in the environment
abbrev pub Declares : Registry → Environment → Option ToolPlugin → List InstallRequest → Type 0
Declares r e o ds = (p : ToolPlugin) × (o ≡ some p) × (p.dependencies e ≡ ok ds)

contains-head : (k : Text) (ks : List Text) → contains k (k ∷ ks) ≡ true
contains-head k ks = ground arith

contains-tail : (j k : Text) (ks : List Text) → contains j ks ≡ true → contains j (k ∷ ks) ≡ true
contains-tail j k ks h = ground arith

-- an entry is found after an insertion if it is the new one or was there before
is_remaining-insert :
    (k j : Text) (q : InstallRequest) (m : Dict InstallRequest)
    → q.tool ≡ j
    → All (λ (i, p). p.tool ≡ i) m
    → is_remaining k (values (insert j q m)) ≡ (j == k || is_remaining k (values m))
unfolding values insert
is_remaining-insert k j q [] e a = ground arith
is_remaining-insert k j q ((i, p) ∷ m) e (b, a) = ground (arith, is_remaining-insert k j q m e a)

IsTopological-keeps :
    (ks : List Text) (m n : Dict (List Text))
    → ((k : Text) → contains k ks ≡ true → lookup_or [] k n ≡ lookup_or [] k m)
    → IsTopological ks m
    → IsTopological ks n
IsTopological-keeps [] m n h t = tt
IsTopological-keeps (k ∷ ks) m n h (a, t) = (
  subst (λ ds. all_in ds ks ≡ true) (sym (h k (contains-head k ks))) a,
  IsTopological-keeps ks m n (λ j c. h j (contains-tail j k ks c)) t,
)

pub all_seen-append :
    (ds es : List Text) (s : Collected) → all_seen (ds ++ es) s ≡ (all_seen ds s && all_seen es s)
all_seen-append [] es s = refl
all_seen-append (d ∷ ds) es s = ground (arith, all_seen-append ds es s)

pub all_seen-stays :
    (ds : List Text) (s u : Collected)
    → ((k : Text) → seen k s ≡ true → seen k u ≡ true)
    → all_seen ds s ≡ true
    → all_seen ds u ≡ true
all_seen-stays [] s u h a = refl
all_seen-stays (d ∷ ds) s u h a = ground (arith, h d, all_seen-stays ds s u h)

all_in-all_seen :
    (ds ks : List Text) (s : Collected)
    → ((k : Text) → contains k ks ≡ seen k s)
    → all_seen ds s ≡ true
    → all_in ds ks ≡ true
all_in-all_seen [] ks s h a = refl
all_in-all_seen (d ∷ ds) ks s h a = ground (arith, h d, all_in-all_seen ds ks s h)

module _ (s : Collected) where
  -- adding to what a current id depends on
  pub IsOrdered-add_dependency :
      (id d : Text)
      → current id s ≡ true
      → seen id s ≡ false
      → IsOrdered s
      → IsOrdered (add_dependency id d s)
  IsOrdered-add_dependency id d c n o = record {
    done = o.done;
    done_iff = o.done_iff;
    topological = IsTopological-keeps o.done s.dependencies _ stays o.topological;
    untouched = λ k a b.
        ground
          (arith, o.untouched k a b, lookup_or-insert [] k id (deps id s ++ d ∷ []) s.dependencies);
    known = o.known;
    present = o.present;
  }
    where
      stays :
          (k : Text)
          → contains k o.done ≡ true
          → lookup_or [] k (insert id (deps id s ++ d ∷ []) s.dependencies) ≡ deps k s
      stays k m =
          ground
            (arith, lookup_or-insert [] k id (deps id s ++ d ∷ []) s.dependencies, o.done_iff k)

module _ (id : Text) (q : InstallRequest) (s : Collected) where
  abbrev Entry : Collected → Text × InstallRequest → Type 0
  Entry t (k, p) = (p.tool ≡ k) × ((seen k t || current k t) ≡ true)

  -- a request for an id that is visited already
  pub IsOrdered-note_request : seen id s ≡ true → IsOrdered s → IsOrdered (note_request id q s)
  IsOrdered-note_request b o = record {
    done = o.done;
    done_iff = o.done_iff;
    topological = o.topological;
    untouched = o.untouched;
    known = insert-All (Entry s) id (named id q) s.requests (refl, ground arith) o.known;
    present = λ k h.
        is_remaining-insert k id (named id q) s.requests refl
          (All-map _ _ (λ e (x, y). x) s.requests o.known)
        ∙ ground (arith, o.present k);
  }

  pub current-begin : (k : Text) → current k (begin id s) ≡ (if k == id then true else current k s)
  current-begin k = lookup_or-insert false k id true s.visiting

  pub IsOrdered-begin : IsOrdered s → IsOrdered (begin id (note_request id q s))
  IsOrdered-begin o = record {
    done = o.done;
    done_iff = o.done_iff;
    topological = o.topological;
    untouched = λ k a b. o.untouched k a (ground (arith, current-begin k));
    known =
        insert-All (Entry (begin id s)) id (named id q) s.requests
          (refl, ground (arith, current-begin id))
          (All-map (Entry s) (Entry (begin id s))
            (λ (k, p) (a, b). (a, ground (arith, current-begin k))) s.requests o.known);
    present = λ k h.
        is_remaining-insert k id (named id q) s.requests refl
          (All-map _ _ (λ e (x, y). x) s.requests o.known)
        ∙ ground (arith, o.present k, current-begin k);
  }

  pub seen-finish : (k : Text) → seen k (finish id s) ≡ (if k == id then true else seen k s)
  seen-finish k = lookup_or-insert false k id true s.visited

  pub current-finish :
      (k : Text) → current k (finish id s) ≡ (if k == id then false else current k s)
  current-finish k = lookup_or-insert false k id false s.visiting

  pub IsOrdered-finish :
      all_seen (deps id s) s ≡ true → current id s ≡ true → IsOrdered s → IsOrdered (finish id s)
  IsOrdered-finish a c o = record {
    done = id ∷ o.done;
    done_iff = λ k. ground (arith, o.done_iff k, seen-finish k);
    topological = (all_in-all_seen (deps id s) o.done s o.done_iff a, o.topological);
    untouched = λ k n c.
        o.untouched k (ground (arith, seen-finish k))
          (ground (arith, seen-finish k, current-finish k));
    known =
        All-map (Entry s) (Entry (finish id s))
          (λ (k, p) (x, b). (x, ground (arith, seen-finish k, current-finish k))) s.requests
          o.known;
    present = λ k h. o.present k (ground (arith, seen-finish k, current-finish k));
  }
