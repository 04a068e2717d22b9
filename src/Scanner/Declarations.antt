-- ===== src/Scanner/Declarations.antt =====
-- Which lines of a Python file declare a tool: `scanPythonReader` against a description of them.
use mcpcheck.Prelude.{
  ℕ, ◌+◌, ◌≡◌, ◌↔◌, ◌⊎◌, ◌=ₜ◌, text_eq_iff, has_prefix, has_prefix_iff, trim_space, codes,
  not-false, sym, ap, ap₂, ◌∙◌, inl, inr, true, false, List, [], ◌∷◌, ◌++◌, some, Text, All, arith,
  Bool-cases, Option-cases,
}
use mcpcheck.Mcpmodel.{Tool}
use mcpcheck.Scanner.Python.{
  Regexps, tool_decorator, def_pattern, group, is_passed_over, next_def_line, defined_tool,
  headed_tool, decorated_tool, tool_at,
}

-- A blank line, or one that begins, behind its spaces, with `#` or `@`.
abbrev pub IsPassedOver : Text → Type 0
IsPassedOver line =
    (trim_space line ≡ [])
    ⊎ ((r : Text) × (trim_space line ≡ codes "#" ++ r))
    ⊎ ((r : Text) × (trim_space line ≡ codes "@" ++ r))

is_passed_over_iff : (line : Text) → (is_passed_over line ≡ true) ↔ IsPassedOver line
unfolding is_passed_over
is_passed_over_iff line = (
  λ e. elim (Bool-cases (trim_space line =ₜ [])) [
    | inl a ↦ inl ((text_eq_iff (trim_space line) []).0 a)
    | inr a ↦ elim (Bool-cases (has_prefix (trim_space line) (codes "#"))) [
      | inl b ↦ inr (inl ((has_prefix_iff (trim_space line) (codes "#")).0 b))
      | inr b ↦ inr (inr ((has_prefix_iff (trim_space line) (codes "@")).0 (rw (a, b) at e)))
    ]
  ],
  λ h. elim h [
    | inl a ↦ ground (arith, (text_eq_iff (trim_space line) []).1 a)
    | inr (inl b) ↦ ground (arith, (has_prefix_iff (trim_space line) (codes "#")).1 b)
    | inr (inr b) ↦ ground (arith, (has_prefix_iff (trim_space line) (codes "@")).1 b)
  ],
)

goes_on : (line : Text) → ¬ IsPassedOver line → is_passed_over line ≡ false
goes_on line n = elim (Bool-cases (is_passed_over line)) [
  | inl e ↦ absurd (n ((is_passed_over_iff line).0 e))
  | inr e ↦ e
]

-- Lines that are passed over, one that is not, and what comes behind it.
pub record NextLine (lines : List Text) (line : Text) (body : List Text) : Type 0 where
  pub skipped : List Text
  pub passed_over : All IsPassedOver skipped
  pub stops : ¬ IsPassedOver line
  pub splits : lines ≡ skipped ++ (line ∷ body)

next_def_line-NextLine :
    (lines : List Text) (line : Text) (body : List Text)
    → next_def_line lines ≡ some (line, body)
    → NextLine lines line body
unfolding next_def_line
next_def_line-NextLine [] line body h = cc
next_def_line-NextLine (l ∷ ls) line body h = elim (Bool-cases (is_passed_over l)) [
  | inl e ↦
      let r = next_def_line-NextLine ls line body (rw e at h) in
      record {
        skipped = l ∷ r.skipped;
        passed_over = ((is_passed_over_iff l).0 e, r.passed_over);
        stops = r.stops;
        splits = ap (λ ms. l ∷ ms) r.splits;
      }
  | inr e ↦
      let q : some (l, ls) ≡ some (line, body) = rw e at h in
      let p : l ≡ line = ground (arith, q) in
      let r : ls ≡ body = ground (arith, q) in
      record {
        skipped = [];
        passed_over = tt;
        stops = λ o. not-false (ap is_passed_over (sym p) ∙ e) ((is_passed_over_iff line).1 o);
        splits = ap₂ ◌∷◌ p r;
      }
]

skip_lines :
    (skipped : List Text) (line : Text) (body : List Text)
    → All IsPassedOver skipped
    → ¬ IsPassedOver line
    → next_def_line (skipped ++ (line ∷ body)) ≡ some (line, body)
unfolding next_def_line
skip_lines [] line body h k = rw (goes_on line k)
skip_lines (l ∷ ls) line body h k =
    rw ((is_passed_over_iff l).1 h.0) (skip_lines ls line body h.1 k)

NextLine-next_def_line :
    {lines : List Text} {line : Text} {body : List Text}
    → NextLine lines line body
    → next_def_line lines ≡ some (line, body)
NextLine-next_def_line {lines} {line} {body} r =
    ap next_def_line r.splits ∙ skip_lines r.skipped line body r.passed_over r.stops

module _ (re : Regexps) where
  -- A decorator of a tool, and behind it, but for lines that are passed over, the head of a function.
  pub record IsDeclaration (line : Text) (later : List Text) : Type 0 where
    pub decorator : List Text
    pub head : Text
    pub body : List Text
    pub groups : List Text
    pub decorated : re.find_submatch tool_decorator line ≡ some decorator
    pub next : NextLine later head body
    pub defines : re.find_submatch def_pattern head ≡ some groups

  pub tool_at-IsDeclaration :
      (path : Text) (i : ℕ) (line : Text) (later : List Text) (t : Tool)
      → tool_at re path i line later ≡ some t
      → IsDeclaration line later × (t.source_line ≡ i + 1) × (t.source_file ≡ path)
  unfolding tool_at
  tool_at-IsDeclaration path i line later t h =
      elim (Option-cases (re.find_submatch tool_decorator line)) [
        | inl a ↦ absurd (cc (ap (decorated_tool re path i later) a))
        | inr (m, a) ↦
            let p : _ = ap (decorated_tool re path i later) a in
            elim (Option-cases (next_def_line later)) [
              | inl b ↦ absurd (cc (p, ap (headed_tool re path i (group 3 m)) b))
              | inr ((head, body), b) ↦
                  let q : _ = ap (headed_tool re path i (group 3 m)) b in
                  elim (Option-cases (re.find_submatch def_pattern head)) [
                    | inl c ↦ absurd (cc (p, q, ap (defined_tool re path i (group 3 m) body) c))
                    | inr (g, c) ↦
                        let r : _ =
                          sym h ∙ p ∙ q ∙ ap (defined_tool re path i (group 3 m) body) c in
                        (
                          record {
                            decorator = m;
                            head = head;
                            body = body;
                            groups = g;
                            decorated = a;
                            next = next_def_line-NextLine later head body b;
                            defines = c;
                          },
                          ground (arith, r),
                          ground (arith, r),
                        )
                  ]
            ]
      ]

  pub IsDeclaration-tool_at :
      (path : Text) (i : ℕ) {line : Text} {later : List Text}
      → IsDeclaration line later
      → (t : Tool) × (tool_at re path i line later ≡ some t)
  unfolding tool_at
  IsDeclaration-tool_at path i {line} {later} d = (
    _,
    ap (decorated_tool re path i later) d.decorated
        ∙ ap (headed_tool re path i (group 3 d.decorator)) (NextLine-next_def_line d.next)
        ∙ ap (defined_tool re path i (group 3 d.decorator) d.body) d.defines,
  )
