-- ===== src/Main/ExitCodes.antt =====
-- The exit codes of the command.
use mcpcheck.Prelude.{
  ◌≡◌, ◌≢◌, refl, ◌↔◌, ◌⊎◌, inl, inr, Bool, true, false, List, [], ◌∷◌, Option, none, some, Text,
  codes, ◌=ₜ◌, text_eq_iff, In, any, any_iff, arith, Bool-cases, not-false, if◌then◌else◌,
}
use mcpcheck.Mcpmodel.{ToolSet}
use mcpcheck.Registry.{sev_error, Finding, Rule}
use mcpcheck.Output.Ordering.{text_order}
use mcpcheck.Output.Sarif.{build_sarif_results}
use mcpcheck.Main.{
  text_lines, json_findings, sarif_results, Output, World, all_findings, select_output,
  is_error_severity, write_out, analyze_all,
}

-- Neither a path nor a command, or more than one path.
abbrev pub IsInvalid : Option Text → List Text → Type 0
IsInvalid none [] = Unit
IsInvalid (some _) [] = ⊥
IsInvalid live (_ ∷ []) = ⊥
IsInvalid live (_ ∷ _ ∷ _) = Unit

is_error_severity_iff : (x : Finding) → (is_error_severity x ≡ true) ↔ (x.severity ≡ sev_error)
is_error_severity_iff x = (λ e. ground arith, λ e. ground arith)

-- No finding is an error.
abbrev pub IsClean : List Finding → Type 0
IsClean xs = (x : Finding) → In x xs → x.severity ≢ sev_error

any_error_iff : (xs : List Finding) → (any is_error_severity xs ≡ false) ↔ IsClean xs
any_error_iff xs = elim (Bool-cases (any is_error_severity xs)) [
  | inl e ↦
      let (x, h, q) = (any_iff is_error_severity xs).0 e in
      (λ p. absurd (not-false p e), λ c. absurd (c x h ((is_error_severity_iff x).0 q)))
  | inr e ↦ (
    λ _ x h q. not-false e ((any_iff is_error_severity xs).1 (x, h, (is_error_severity_iff x).1 q)),
    λ _. e,
  )
]

write_out-zero :
    (w : World) (o : Option Output) (bad : Bool)
    → ((write_out w o (if bad then 1 else 0)).code ≡ 0)
      ↔ ((out : Output) × (o ≡ some out) × (w.writes out ≡ true) × (bad ≡ false))
write_out-zero w none bad = (λ e. absurd (omega arith), λ (_, e, _, _). absurd (cc))
write_out-zero w (some o) bad =
    (λ e. (o, refl, ground arith, ground arith), λ (out, e, h, b). ground arith)

-- What each of the three formats hands to its writer.
abbrev pub IsOutputOf : Text → List Finding → Output → Type 0
IsOutputOf format fs out =
    ((format ≡ codes "text") × (out ≡ text_lines (text_order fs)))
    ⊎ ((format ≡ codes "json") × (out ≡ json_findings fs))
    ⊎ ((format ≡ codes "sarif") × (out ≡ sarif_results (build_sarif_results fs)))

written-select_output :
    (format : Text) (fs : List Finding) (out : Output)
    → IsOutputOf format fs out
    → select_output format fs ≡ some out
unfolding select_output ◌=ₜ◌
written-select_output format fs out (inl (p, q)) = rw (p, q) refl
written-select_output format fs out (inr (inl (p, q))) = rw (p, q) refl
written-select_output format fs out (inr (inr (p, q))) = rw (p, q) refl

select_output_iff :
    (format : Text) (fs : List Finding) (out : Output)
    → (select_output format fs ≡ some out) ↔ IsOutputOf format fs out
unfolding select_output
select_output_iff format fs out = (text_case, written-select_output format fs out)
  where
    sarif_case :
        (if format =ₜ codes "sarif" then some (sarif_results (build_sarif_results fs)) else none)
          ≡ some out
        → (format ≡ codes "sarif") × (out ≡ sarif_results (build_sarif_results fs))
    sarif_case e = elim (Bool-cases (format =ₜ codes "sarif")) [
      | inl a ↦
          let q : some (sarif_results (build_sarif_results fs)) ≡ some out = rw a at e in
          ((text_eq_iff format (codes "sarif")).0 a, cc)
      | inr a ↦ let q : none ≡ some out = rw a at e in absurd (cc)
    ]

    text_case : select_output format fs ≡ some out → IsOutputOf format fs out
    text_case e = elim (Bool-cases (format =ₜ codes "text")) [
      | inl a ↦
          let q : some (text_lines (text_order fs)) ≡ some out = rw a at e in
          inl ((text_eq_iff format (codes "text")).0 a, cc)
      | inr a ↦ elim (Bool-cases (format =ₜ codes "json")) [
        | inl b ↦
            let q : some (json_findings fs) ≡ some out = rw (a, b) at e in
            inr (inl ((text_eq_iff format (codes "json")).0 b, cc))
        | inr b ↦ inr (inr (sarif_case (rw (a, b) at e)))
      ]
    ]

-- An analysis exits with 0 exactly when its format is `text`, `json` or `sarif`, what that format makes of
-- the findings is written, and no finding is an error; other severities do not change the exit code.
pub analyze_all-zero_iff :
    (registry : List Rule) (w : World) (static live : Option ToolSet) (format : Text)
    → ((analyze_all registry w static live format).code ≡ 0) ↔ (
        (out : Output) × IsOutputOf format (all_findings registry static live) out
        × (w.writes out ≡ true)
        × IsClean (all_findings registry static live))
unfolding analyze_all
analyze_all-zero_iff registry w static live format =
    let fs = all_findings registry static live in
    let (f, g) = write_out-zero w (select_output format fs) (any is_error_severity fs) in
    (
      λ e.
          let (o, a, b, c) = f e in
          (o, (select_output_iff format fs o).0 a, b, (any_error_iff fs).0 c),
      λ (o, a, b, c). g (o, (select_output_iff format fs o).1 a, b, (any_error_iff fs).1 c),
    )
