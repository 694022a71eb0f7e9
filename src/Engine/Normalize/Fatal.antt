-- ===== src/Engine/Normalize/Fatal.antt =====
-- packages/core/src/engine/normalize.ts: what is refused about an amount and a quantity.
use ghalla.Base.{Bool, true, false, not, ◌&&◌, List, [], ◌∷◌, ◌++◌, if◌then◌else◌}
use ghalla.Base.Int.{ℤ, pos, ltb_ℤ}
use ghalla.Money.{is_minor, is_safe_integer}
use ghalla.Engine.Diagnostics.{Diagnostic, DiagnosticCode, Subject, diagnostic}

-- `if (bad) fatal.push(d)`
abbrev pub fatal_if : Bool → Diagnostic → List Diagnostic
fatal_if true d = d ∷ []
fatal_if false d = []

abbrev pub is_negative : ℤ → Bool
is_negative v = ltb_ℤ v (pos 0)

-- A money amount that is in range and at least zero
abbrev pub is_amount : ℤ → Bool
is_amount v = is_minor v && not (is_negative v)

-- One diagnostic for each amount out of range
unfoldable pub invalid_amounts : Subject → List ℤ → List Diagnostic
invalid_amounts s [] = []
invalid_amounts s (v ∷ vs) =
    fatal_if (not (is_minor v)) (diagnostic DiagnosticCode.non_integer_minor_units s)
    ++ invalid_amounts s vs

abbrev pub quantity_checks : Subject → ℤ → List Diagnostic
quantity_checks s q =
    if not (is_safe_integer q)
    then diagnostic DiagnosticCode.non_integer_quantity s ∷ []
    else fatal_if (is_negative q) (diagnostic DiagnosticCode.negative_quantity s)
