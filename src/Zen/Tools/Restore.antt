-- ===== src/Zen/Tools/Restore.antt =====
-- The names that come back to the client.
use mathlib.Core.Path.{subst}
use proxy_opencode.Prelude.{
  ◌≡◌, ◌∙◌, refl, ap, String, true, Option, none, some, List, [], ◌∷◌, All, arith, eq_refl, is_some,
  inl, inr, Option-cases,
}
use proxy_opencode.Prelude.Dict.{Dict, get, put, get-put}
use proxy_opencode.Egress.Pool.Select.{among}
use proxy_opencode.Zen.Tools.Mapping.{
  IsClientMap, IsClientMap-put, IsPlain, get-reversed, get-reversed_plain,
}
use proxy_opencode.Zen.Tools.{
  Tool, ToolName, function_name, bare_name, outer_name, nameless, named, renamed, tool_names,
  client_name, rename_tools, mapped, collision, with_first, with_client_name, reversed,
  rename_collisions, Message, rename_messages,
}

collision-reserved :
    (reserved : List String) (tool_name : ToolName) (name : String)
    → collision reserved tool_name ≡ some name
    → (named tool_name ≡ some name) × (among reserved name ≡ true)
unfolding collision
collision-reserved reserved (function_name other) name e = ground arith
collision-reserved reserved (bare_name other) name e = ground arith
collision-reserved reserved (outer_name other) name e = ground arith
collision-reserved reserved nameless name e = absurd (ground arith)

-- The loop after the look at one tool.
abbrev onward :
    List String → Tool → List Tool → Dict String → Option String → List Tool × Dict String
onward reserved t ts m none = with_first t (rename_tools reserved ts m)
onward reserved t ts m (some name) =
    with_first (with_client_name t name) (rename_tools reserved ts (put name (client_name name) m))

rename_tools-cons :
    (reserved : List String) (t : Tool) (ts : List Tool) (m : Dict String) (o : Option String)
    → collision reserved t.name ≡ o
    → rename_tools reserved (t ∷ ts) m ≡ onward reserved t ts m o
unfolding rename_tools
rename_tools-cons reserved t ts m none e = rw (rename_tools, e) refl
rename_tools-cons reserved t ts m (some name) e = rw (rename_tools, e) refl

-- The mapping only grows.
rename_tools-keeps :
    (reserved : List String) (ts : List Tool) (m : Dict String) (name : String)
    → is_some (get name m) ≡ true
    → is_some (get name (rename_tools reserved ts m).1) ≡ true
rename_tools-keeps reserved [] m name h = unfold rename_tools in h
rename_tools-keeps reserved (t ∷ ts) m name h = elim (Option-cases (collision reserved t.name)) [
  | inl e ↦ rw (rename_tools-cons reserved t ts m none e) (rename_tools-keeps reserved ts m name h)
  | inr (other, e) ↦ rw (rename_tools-cons reserved t ts m (some other) e) (
      rename_tools-keeps reserved ts (put other (client_name other) m) name
        (ground (arith, get-put other name (client_name other) m)))
]

rename_tools-IsClientMap :
    (reserved : List String) (ts : List Tool) (m : Dict String)
    → IsClientMap reserved m
    → IsClientMap reserved (rename_tools reserved ts m).1
rename_tools-IsClientMap reserved [] m h = unfold rename_tools in h
rename_tools-IsClientMap reserved (t ∷ ts) m h = elim (Option-cases (collision reserved t.name)) [
  | inl e ↦ rw (rename_tools-cons reserved t ts m none e) (rename_tools-IsClientMap reserved ts m h)
  | inr (other, e) ↦ rw (rename_tools-cons reserved t ts m (some other) e) (
      rename_tools-IsClientMap reserved ts (put other (client_name other) m)
        (IsClientMap-put reserved other m (collision-reserved reserved t.name other e).1 h))
]

tool_names-some :
    (t : Tool) (name : String) (ts : List Tool)
    → named t.name ≡ some name
    → tool_names (t ∷ ts) ≡ name ∷ tool_names ts
unfolding tool_names
tool_names-some t name ts e = rw (tool_names, e) refl

tool_names-none :
    (t : Tool) (ts : List Tool) → named t.name ≡ none → tool_names (t ∷ ts) ≡ tool_names ts
unfolding tool_names
tool_names-none t ts e = rw (tool_names, e) refl

named-renamed :
    (old : ToolName) (name new : String)
    → named old ≡ some name
    → named (renamed old new) ≡ some new
named-renamed (function_name old) name new e = refl
named-renamed (bare_name old) name new e = refl
named-renamed (outer_name old) name new e = refl
named-renamed nameless name new e = absurd (ground arith)

-- The response side puts a name back.
abbrev pub restore_names : Dict String → List String → List String
restore_names restore [] = []
restore_names restore (name ∷ names) = mapped restore name ∷ restore_names restore names

module _ (reserved : List String) where
  mapped-client :
      (name : String) (m : Dict String)
      → IsClientMap reserved m
      → is_some (get name m) ≡ true
      → mapped (reversed m []) (client_name name) ≡ name
  unfolding mapped
  mapped-client name m h there = rw (mapped, get-reversed reserved name m [] h, there) refl

  mapped-plain :
      (name : String) (m : Dict String)
      → IsClientMap reserved m
      → IsPlain reserved name
      → mapped (reversed m []) name ≡ name
  unfolding mapped
  mapped-plain name m h plain = rw (mapped, get-reversed_plain reserved name m [] plain h, get) refl

  IsPlain-tail :
      (t : Tool) (ts : List Tool)
      → All (IsPlain reserved) (tool_names (t ∷ ts))
      → All (IsPlain reserved) (tool_names ts)
  IsPlain-tail t ts plain = elim (Option-cases (named t.name)) [
    | inl no_name ↦ subst (All (IsPlain reserved)) (tool_names-none t ts no_name) plain
    | inr (name, is) ↦ (subst (All (IsPlain reserved)) (tool_names-some t name ts is) plain).1
  ]

  abbrev IsRestored : List Tool → Dict String → Type 0
  IsRestored ts m =
      restore_names (reversed (rename_tools reserved ts m).1 [])
        (tool_names (rename_tools reserved ts m).0)
      ≡ tool_names ts

  IsRestored-none :
      (t : Tool) (ts : List Tool) (m : Dict String)
      → collision reserved t.name ≡ none
      → IsClientMap reserved m
      → All (IsPlain reserved) (tool_names (t ∷ ts))
      → IsRestored ts m
      → IsRestored (t ∷ ts) m
  IsRestored-none t ts m e h plain later =
      let (out, m') = rename_tools reserved ts m in
      rw (rename_tools-cons reserved t ts m none e) (elim (Option-cases (named t.name)) [
        | inl no_name ↦ rw (tool_names-none t out no_name, tool_names-none t ts no_name) later
        | inr (name, is) ↦
            let plains = subst (All (IsPlain reserved)) (tool_names-some t name ts is) plain in
            let kept = rename_tools-IsClientMap reserved ts m h in
            rw (tool_names-some t name out is, tool_names-some t name ts is)
              (ap (λ x. x ∷ restore_names (reversed m' []) (tool_names out))
                  (mapped-plain name m' kept plains.0)
                ∙ ap (λ xs. name ∷ xs) later)
      ])

  IsRestored-some :
      (t : Tool) (ts : List Tool) (m : Dict String) (name : String)
      → collision reserved t.name ≡ some name
      → IsClientMap reserved m
      → IsRestored ts (put name (client_name name) m)
      → IsRestored (t ∷ ts) m
  IsRestored-some t ts m name e h later =
      let n = put name (client_name name) m in
      let (out, m') = rename_tools reserved ts n in
      let (is, among_them) = collision-reserved reserved t.name name e in
      let kept =
        rename_tools-IsClientMap reserved ts n (IsClientMap-put reserved name m among_them h) in
      let there =
        rename_tools-keeps reserved ts n name
          (ground (arith, get-put name name (client_name name) m, eq_refl name)) in
      let new = named-renamed t.name name (client_name name) is in
      rw
        (
          rename_tools-cons reserved t ts m (some name) e,
          tool_names-some (with_client_name t name) (client_name name) out new,
          tool_names-some t name ts is,
        )
        (ap (λ x. x ∷ restore_names (reversed m' []) (tool_names out))
            (mapped-client name m' kept there)
          ∙ ap (λ xs. name ∷ xs) later)

  rename_tools-IsRestored :
      (ts : List Tool) (m : Dict String)
      → IsClientMap reserved m
      → All (IsPlain reserved) (tool_names ts)
      → IsRestored ts m
  rename_tools-IsRestored [] m h plain = unfold rename_tools tool_names in refl
  rename_tools-IsRestored (t ∷ ts) m h plain = elim (Option-cases (collision reserved t.name)) [
    | inl e ↦
        IsRestored-none t ts m e h plain (rename_tools-IsRestored ts m h (IsPlain-tail t ts plain))
    | inr (name, e) ↦
        let (is, among_them) = collision-reserved reserved t.name name e in
        IsRestored-some t ts m name e h (
          rename_tools-IsRestored ts (put name (client_name name) m)
            (IsClientMap-put reserved name m among_them h) (IsPlain-tail t ts plain))
  ]

-- A client gets its own names back: for a request without a restore map of its own so far, the names
-- of the tools that go upstream, put back by the map that the renaming stores, are the names that
-- the client declared. No name of the client may be a builtin's name behind `client_`.
pub rename_collisions-restored :
    (client_tools builtins : List Tool) (messages : List Message)
    → All (IsPlain (tool_names builtins)) (tool_names client_tools)
    → let ((out, _), restore) = rename_collisions client_tools messages builtins [] in
      restore_names restore (tool_names out) ≡ tool_names client_tools
unfolding rename_collisions
rename_collisions-restored client_tools builtins messages plain =
    of (rename_tools (tool_names builtins) client_tools []).1
      (rename_tools-IsRestored (tool_names builtins) client_tools [] tt plain)
  where
    out : List Tool
    out = (rename_tools (tool_names builtins) client_tools []).0

    of :
        (mapping : Dict String)
        → restore_names (reversed mapping []) (tool_names out) ≡ tool_names client_tools
        → let ((sent, _), restore) : (List Tool × List Message) × Dict String = elim mapping [
          | [] ↦ ((out, messages), [])
          | m ∷ ms ↦ ((out, rename_messages (m ∷ ms) messages), reversed (m ∷ ms) [])
        ] in
          restore_names restore (tool_names sent) ≡ tool_names client_tools
    of [] h = unfold reversed in h
    of (m ∷ ms) h = h
