-- ===== src/Tools/Dispatch/Laws.antt =====
-- What a dispatch finds, and which commands there are (tools/registry.go).
use polka.Base.{Text, ◌==◌, norm, null, Bool, true, false, not, ◌&&◌, ◌||◌, Option, none, some}
use polka.Base.{List, [], ◌∷◌, ◌++◌, ◌≡◌, refl, ap, ◌∙◌, arith, ◌⊎◌, inl, inr, All, Bool-cases}
use mathlib.Core.List.{Mem, mem-cons_self, mem-cons_of_mem}
use polka.Base.Result.{ok, err}
use polka.Backend.State.{contains}
use polka.Config.Types.{Environment}
use polka.Tools.Registry.{ToolPlugin, Registry}
use polka.Tools.Dispatch.{
  DispatchRequest, unsupported_tool, answers, request_for, or_else, supported, Search, done, going,
}
use polka.Tools.Dispatch.{
  is_configured, search_commands, search_plugins, resolve_dispatch_request_for_environment,
}
use polka.Tools.Dispatch.{add_command, add_commands, add_tool_commands, unique_tool_commands}

abbrev pub some_answers : Text → List Text → Bool
some_answers trimmed [] = false
some_answers trimmed (c ∷ cs) = answers trimmed c || some_answers trimmed cs

-- the plugin has a command of this name
abbrev pub offers : Text → ToolPlugin → Bool
offers trimmed p = some_answers trimmed p.dispatch_commands

module _ (e : Environment) (trimmed : Text) (everything : List ToolPlugin) where
  -- the request is for a plugin of the registry that has the command
  abbrev pub IsAnswer : DispatchRequest → Type 0
  IsAnswer q =
      (q.config_tool ≡ q.provider.id)
      × (offers trimmed q.provider ≡ true)
      × Mem q.provider everything

  abbrev IsFallback : Option DispatchRequest → Type 0
  IsFallback none = Unit
  IsFallback (some q) = IsAnswer q

  -- what is left to fall back to, after commands of which none belongs to a configured plugin
  abbrev Passed : ToolPlugin → List Text → Option DispatchRequest → Option DispatchRequest → Type 0
  Passed p cs fallback next =
      ((some_answers trimmed cs && is_configured e p) ≡ false)
      × IsFallback next
      × ((next ≡ none) → (fallback ≡ none) × (some_answers trimmed cs ≡ false))

  search_commands-cases :
      (p : ToolPlugin) (cs : List Text) (fallback : Option DispatchRequest)
      → Mem p everything
      → (some_answers trimmed cs ≡ true → offers trimmed p ≡ true)
      → IsFallback fallback
      → ((q : DispatchRequest) × (search_commands e trimmed p cs fallback ≡ done q)
          × IsAnswer q
          × (is_configured e q.provider ≡ true))
        ⊎ ((next : Option DispatchRequest) × (search_commands e trimmed p cs fallback ≡ going next)
            × Passed p cs fallback next)
  unfolding search_commands
  search_commands-cases p [] fallback m o f = inr (fallback, refl, (refl, f, (λ h. (h, refl))))
  search_commands-cases p (c ∷ cs) fallback m o f = elim (Bool-cases (answers trimmed c)) [
    | inr a ↦ elim (search_commands-cases p cs fallback m (λ h. o (ground arith)) f) [
      | inl (q, x, y, z) ↦ inl (q, rw a x, y, z)
      | inr (next, x, (y, z, w)) ↦ inr (next, rw a x, (rw a y, z, rw a w))
    ]
    | inl a ↦
        let here : offers trimmed p ≡ true = o (ground arith) in
        elim (Bool-cases (is_configured e p)) [
          | inl k ↦ inl (request_for p c, rw a (rw k refl), (refl, here, m), k)
          | inr k ↦
              elim (search_commands-cases p cs (or_else fallback (some (request_for p c))) m
                (λ h. here) (kept fallback here f)) [
                  | inl (q, x, y, z) ↦ inl (q, rw a (rw k x), y, z)
                  | inr (next, x, (y, z, w)) ↦ inr (
                    next,
                    rw a (rw k x),
                    (rw k (ground arith), z, (λ h. absurd (not_none fallback (w h).0))),
                  )
                ]
        ]
  ]
    where
      kept :
          (o : Option DispatchRequest)
          → offers trimmed p ≡ true
          → IsFallback o
          → IsFallback (or_else o (some (request_for p c)))
      kept none h f = (refl, h, m)
      kept (some q) h f = f

      not_none : (o : Option DispatchRequest) → or_else o (some (request_for p c)) ≡ none → ⊥
      not_none none h = cc
      not_none (some q) h = cc

  -- how a search among these plugins ends
  abbrev Ends : List ToolPlugin → Option DispatchRequest → Type 0
  Ends ps fallback =
      ((q : DispatchRequest) × (search_plugins e trimmed ps fallback ≡ some q)
        × IsAnswer q
        × ((is_configured e q.provider ≡ true)
            ⊎ All (λ p. (offers trimmed p && is_configured e p) ≡ false) ps))
      ⊎ ((search_plugins e trimmed ps fallback ≡ none)
          × (fallback ≡ none)
          × All (λ p. offers trimmed p ≡ false) ps)

  search_plugins-cases :
      (ps : List ToolPlugin) (fallback : Option DispatchRequest)
      → ((p : ToolPlugin) → Mem p ps → Mem p everything)
      → IsFallback fallback
      → Ends ps fallback
  unfolding search_plugins
  search_plugins-cases [] none sub f = inr (refl, refl, tt)
  search_plugins-cases [] (some q) sub f = inl (q, refl, f, inr tt)
  search_plugins-cases (p ∷ ps) fallback sub f =
      elim (search_commands-cases p p.dispatch_commands fallback (sub p mem-cons_self) (λ h. h) f) [
        | inl (q, x, y, z) ↦ inl (q, ap after x, y, inl z)
        | inr (next, x, (y, z, w)) ↦
            elim (search_plugins-cases ps next (λ i m. sub i (mem-cons_of_mem p m)) z) [
              | inl (q, a, b, c) ↦ inl (q, ap after x ∙ a, b, further y c)
              | inr (a, b, c) ↦ inr (ap after x ∙ a, (w b).0, ((w b).1, c))
            ]
      ]
    where
      after : Search → Option DispatchRequest
      after (done request) = some request
      after (going next) = search_plugins e trimmed ps next

      further :
          {A : Type 0}
          → (offers trimmed p && is_configured e p) ≡ false
          → A ⊎ All (λ p. (offers trimmed p && is_configured e p) ≡ false) ps
          → A ⊎ All (λ p. (offers trimmed p && is_configured e p) ≡ false) (p ∷ ps)
      further y (inl c) = inl c
      further y (inr c) = inr (y, c)

-- A dispatch answers with a plugin of the registry that has the command; the plugin is configured
-- in the environment if any plugin that has the command is; and the command is refused only if no
-- plugin has it.
pub resolve_dispatch_request_for_environment_lem :
    (r : Registry) (e : Environment) (tool : Text)
    → ((q : DispatchRequest) × (resolve_dispatch_request_for_environment e r tool ≡ ok q)
        × IsAnswer e (norm tool) r.plugins q
        × ((is_configured e q.provider ≡ true)
            ⊎ All (λ p. (offers (norm tool) p && is_configured e p) ≡ false) r.plugins))
      ⊎ ((resolve_dispatch_request_for_environment e r tool ≡ err (unsupported_tool tool))
          × All (λ p. offers (norm tool) p ≡ false) r.plugins)
unfolding resolve_dispatch_request_for_environment
resolve_dispatch_request_for_environment_lem r e tool =
    elim (search_plugins-cases e (norm tool) r.plugins r.plugins none (λ p m. m) tt) [
      | inl (q, a, b, c) ↦ inl (q, ap (supported tool) a, b, c)
      | inr (a, b, c) ↦ inr (ap (supported tool) a, c)
    ]

-- some command has this normal form
abbrev pub names : Text → List Text → Bool
names k [] = false
names k (c ∷ cs) = norm c == k || names k cs

abbrev pub some_names : Text → (ToolPlugin → List Text) → List ToolPlugin → Bool
some_names k f [] = false
some_names k f (p ∷ ps) = names k (f p) || some_names k f ps

contains-append :
    (k : Text) (xs ys : List Text) → contains k (xs ++ ys) ≡ (contains k xs || contains k ys)
contains-append k [] ys = refl
contains-append k (x ∷ xs) ys = ground (arith, contains-append k xs ys)

contains-add_command :
    (k : Text) (commands : List Text) (c : Text)
    → contains k (add_command commands c) ≡ (contains k commands || (not (null k) && norm c == k))
contains-add_command k commands c = ground (arith, contains-append k commands (norm c ∷ []))

contains-add_commands :
    (k : Text) (commands cs : List Text)
    → contains k (add_commands commands cs) ≡ (contains k commands || (not (null k) && names k cs))
unfolding add_commands
contains-add_commands k commands [] = ground arith
contains-add_commands k commands (c ∷ cs) =
    ground (
      arith,
      contains-add_commands k (add_command commands c) cs,
      contains-add_command k commands c,
    )

contains-add_tool_commands :
    (k : Text) (f : ToolPlugin → List Text) (commands : List Text) (ps : List ToolPlugin)
    → contains k (add_tool_commands f commands ps)
      ≡ (contains k commands || (not (null k) && some_names k f ps))
unfolding add_tool_commands
contains-add_tool_commands k f commands [] = ground arith
contains-add_tool_commands k f commands (p ∷ ps) = ground (
  arith,
  contains-add_tool_commands k f (add_commands commands (f p)) ps,
  contains-add_commands k commands (f p),
)

abbrev pub IsUnique : List Text → Type 0
IsUnique [] = Unit
IsUnique (c ∷ cs) = (contains c cs ≡ false) × IsUnique cs

IsUnique-append :
    (cs : List Text) (c : Text) → IsUnique cs → contains c cs ≡ false → IsUnique (cs ++ c ∷ [])
IsUnique-append [] c u n = (refl, tt)
IsUnique-append (d ∷ cs) c (x, u) n =
    (ground (arith, contains-append d cs (c ∷ [])), IsUnique-append cs c u (ground arith))

IsUnique-add_command :
    (commands : List Text) (c : Text) → IsUnique commands → IsUnique (add_command commands c)
IsUnique-add_command commands c u =
    elim (Bool-cases (null (norm c) || contains (norm c) commands)) [
      | inl e ↦ rw e u
      | inr e ↦ rw e (IsUnique-append commands (norm c) u (ground arith))
    ]

IsUnique-add_commands :
    (commands cs : List Text) → IsUnique commands → IsUnique (add_commands commands cs)
unfolding add_commands
IsUnique-add_commands commands [] u = u
IsUnique-add_commands commands (c ∷ cs) u =
    IsUnique-add_commands (add_command commands c) cs (IsUnique-add_command commands c u)

IsUnique-add_tool_commands :
    (f : ToolPlugin → List Text) (commands : List Text) (ps : List ToolPlugin)
    → IsUnique commands
    → IsUnique (add_tool_commands f commands ps)
unfolding add_tool_commands
IsUnique-add_tool_commands f commands [] u = u
IsUnique-add_tool_commands f commands (p ∷ ps) u =
    IsUnique-add_tool_commands f (add_commands commands (f p)) ps
      (IsUnique-add_commands commands (f p) u)

-- The commands of all plugins have no duplicates, and hold the normal form of each command that is
-- not blank, and nothing else.
pub unique_tool_commands_lem :
    (ps : List ToolPlugin) (f : ToolPlugin → List Text)
    → IsUnique (unique_tool_commands ps f)
      × ((k : Text) → contains k (unique_tool_commands ps f) ≡ (not (null k) && some_names k f ps))
unfolding unique_tool_commands
unique_tool_commands_lem ps f =
    (IsUnique-add_tool_commands f [] ps tt, (λ k. contains-add_tool_commands k f [] ps))
