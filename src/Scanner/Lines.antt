-- ===== src/Scanner/Lines.antt =====
-- The tools that `scanPythonReader` finds: one for each line that declares one, in their order.
use mcpcheck.Prelude.{
  ℕ, zero, suc, ◌+◌, ◌<◌, ◌≤◌, ◌≡◌, ◌⊎◌, sym, ap, inl, inr, List, [], ◌∷◌, Option, none, some, Text,
  In, here, there, In-cons, arith, Option-cases,
}
use mcpcheck.Mcpmodel.{Tool}
use mcpcheck.Scanner.Python.{
  Regexps, tool_at, add_tool, scan_lines, scan_from, scanned, scan_python_reader,
}
use mcpcheck.Scanner.Declarations.{IsDeclaration, tool_at-IsDeclaration, IsDeclaration-tool_at}

In-add_tool :
    {t : Tool} (o : Option Tool) (ts : List Tool) → In t (add_tool o ts) → (o ≡ some t) ⊎ In t ts
In-add_tool none ts h = inr h
In-add_tool (some u) ts h = elim (In-cons h) [ inl e ↦ inl (ap some (sym e)) | inr k ↦ inr k ]

add_tool-In_new : {t : Tool} (o : Option Tool) (ts : List Tool) → o ≡ some t → In t (add_tool o ts)
add_tool-In_new none ts h = absurd (cc)
add_tool-In_new (some u) ts h = here (ground (arith, h))

add_tool-In_old : {t : Tool} (o : Option Tool) (ts : List Tool) → In t ts → In t (add_tool o ts)
add_tool-In_old none ts h = h
add_tool-In_old (some u) ts h = there h

-- Each line is above a bound and above the ones of the tools before it.
abbrev pub IsAscending : ℕ → List Tool → Type 0
IsAscending n [] = Unit
IsAscending n (t ∷ ts) = (n < t.source_line) × IsAscending t.source_line ts

IsAscending-weaken : (m n : ℕ) (ts : List Tool) → m ≤ n → IsAscending n ts → IsAscending m ts
IsAscending-weaken m n [] h a = tt
IsAscending-weaken m n (t ∷ ts) h a = (omega (arith, a.0), a.1)

-- The line with an index declares a tool.
abbrev pub DeclaresAt : Regexps → ℕ → List Text → Type 0
DeclaresAt re n [] = ⊥
DeclaresAt re zero (line ∷ later) = IsDeclaration re line later
DeclaresAt re (suc n) (line ∷ later) = DeclaresAt re n later

module _ (re : Regexps) (path : Text) where
  scan_from-IsAscending : (i : ℕ) (lines : List Text) → IsAscending i (scan_from re path i lines)
  unfolding scan_from
  scan_from-IsAscending i [] = tt
  scan_from-IsAscending i (line ∷ later) = elim (Option-cases (tool_at re path i line later)) [
    | inl e ↦
        rw e (IsAscending-weaken i (i + 1) _ (omega arith) (scan_from-IsAscending (i + 1) later))
    | inr (t, e) ↦
        let (d, n, f) = tool_at-IsDeclaration re path i line later t e in
        rw e (
          omega (arith, n),
          IsAscending-weaken t.source_line (i + 1) _ (omega (arith, n))
              (scan_from-IsAscending (i + 1) later),
        )
  ]

  scan_from-In :
      (i : ℕ) (lines : List Text) (t : Tool)
      → In t (scan_from re path i lines)
      → (t.source_file ≡ path) × ((n : ℕ) × (t.source_line ≡ i + n + 1) × DeclaresAt re n lines)
  unfolding scan_from
  scan_from-In i [] t h = elim h [ ]
  scan_from-In i (line ∷ later) t h = elim (In-add_tool (tool_at re path i line later) _ h) [
    | inl e ↦
        let (d, n, f) = tool_at-IsDeclaration re path i line later t e in
        (f, (zero, omega (arith, n), d))
    | inr k ↦
        let (f, (n, e, d)) = scan_from-In (i + 1) later t k in (f, (suc n, omega (arith, e), d))
  ]

  DeclaresAt-scan_from :
      (i n : ℕ) (lines : List Text)
      → DeclaresAt re n lines
      → (t : Tool) × In t (scan_from re path i lines) × (t.source_line ≡ i + n + 1)
  unfolding scan_from
  DeclaresAt-scan_from i n [] d = absurd d
  DeclaresAt-scan_from i zero (line ∷ later) d =
      let (t, e) = IsDeclaration-tool_at re path i d in
      let (d', n, f) = tool_at-IsDeclaration re path i line later t e in
      (t, add_tool-In_new (tool_at re path i line later) _ e, omega (arith, n))
  DeclaresAt-scan_from i (suc n) (line ∷ later) d =
      let (t, h, e) = DeclaresAt-scan_from (i + 1) n later d in
      (t, add_tool-In_old (tool_at re path i line later) _ h, omega (arith, e))

  -- Of a text that splits into lines, `scanPythonReader` returns tools in ascending order of their source
  -- lines. Each has the given path and the number, from 1, of a line that declares a tool: the decorator
  -- matches there, and the first line behind it that is not blank, a comment or a decorator matches `def`.
  -- For each such line there is a tool.
  pub scan_python_reader_lem :
      (content : Text) (lines : List Text)
      → scan_lines content ≡ some lines
      → (tools : List Tool) × (scan_python_reader re path content ≡ some tools)
        × IsAscending 0 tools
        × ((t : Tool)
            → In t tools
            → (t.source_file ≡ path) × ((n : ℕ) × (t.source_line ≡ n + 1) × DeclaresAt re n lines))
        × ((n : ℕ) → DeclaresAt re n lines → (t : Tool) × In t tools × (t.source_line ≡ n + 1))
  unfolding scan_python_reader
  scan_python_reader_lem content lines h = (
    scan_from re path 0 lines,
    ap (scanned re path) h,
    scan_from-IsAscending 0 lines,
    λ t k. let (f, (n, e, d)) = scan_from-In 0 lines t k in (f, (n, omega (arith, e), d)),
    λ n d. let (t, k, e) = DeclaresAt-scan_from 0 n lines d in (t, k, omega (arith, e)),
  )
