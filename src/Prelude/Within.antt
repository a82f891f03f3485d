-- ===== src/Prelude/Within.antt =====
-- A text that is part of another one.
use mathlib.Core.Path.{◌≡◌, ap, sym, ◌∙◌}
use mathlib.Core.List.{◌++◌, append_assoc}
use min_corehdr.Prelude.Strings.{Text}

-- `part` stands somewhere in `whole`.
pub record Within (part whole : Text) : Type 0 where
  pub front : Text
  pub back : Text
  pub split : whole ≡ front ++ (part ++ back)

pub Within-left : (part whole more : Text) → Within part whole → Within part (more ++ whole)
Within-left part whole more w = record {
  front = more ++ w.front;
  back = w.back;
  split = ap (λ (s : Text). more ++ s) w.split ∙ sym (append_assoc more w.front (part ++ w.back));
}

pub Within-right : (part whole more : Text) → Within part whole → Within part (whole ++ more)
Within-right part whole more w = record {
  front = w.front;
  back = w.back ++ more;
  split =
      ap (λ (s : Text). s ++ more) w.split
      ∙ append_assoc w.front (part ++ w.back) more
      ∙ ap (λ (s : Text). w.front ++ s) (append_assoc part w.back more);
}
