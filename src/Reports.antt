-- ===== src/Reports.antt =====
-- Error reports (src/error.c, include/min_corehdr/error.h): five buffers, and their printing. A text
-- argument is what `vsnprintf` makes of the format; a null report is `none`.
use min_corehdr.Prelude.{
  ◌+◌, ◌≤◌, ◌<◌, ◌≡◌, refl, ap, ◌∙◌, inl, inr, Option, none, some, List, [], ◌∷◌, ◌++◌, arith,
  if◌then◌else◌, Bool-cases, length, length-append, Text, codes, is_empty,
}
use min_corehdr.Prelude.Buffer.{truncated, length-truncated}

pub record Report : Type 0 where
  pub message : Text
  pub context : Text
  pub file : Text
  pub detail : Text
  pub hint : Text

abbrev pub no_report : Report
no_report = record { message = []; context = []; file = []; detail = []; hint = [] }

unfoldable pub error_clear : Option Report → Option Report
error_clear none = none
error_clear (some err) = some no_report

unfoldable pub error_set : Option Report → Text → Option Report
error_set none text = none
error_set (some err) text = some (record err { message = truncated 256 text })

unfoldable pub error_set_context : Option Report → Text → Option Report
error_set_context none text = none
error_set_context (some err) text = some (record err { context = truncated 512 text })

unfoldable pub error_set_file : Option Report → Option Text → Option Report
error_set_file none file = none
error_set_file (some err) none = some err
error_set_file (some err) (some file) = some (record err { file = truncated 512 file })

unfoldable pub error_set_detail : Option Report → Text → Option Report
error_set_detail none text = none
error_set_detail (some err) text = some (record err { detail = truncated 512 text })

unfoldable pub error_set_hint : Option Report → Option Text → Option Report
error_set_hint none hint = none
error_set_hint (some err) none = some err
error_set_hint (some err) (some hint) = some (record err { hint = truncated 256 hint })

-- A line for a buffer that is not empty.
unfoldable pub line : Text → Text → Text
line label text = if is_empty text then [] else label ++ (text ++ codes "\n")

-- What is written onto a stream that is not null.
unfoldable pub error_print : Option Report → Text
error_print none = []
error_print (some err) =
    if is_empty err.message
    then []
    else codes "error: "
      ++ (err.message
          ++ (codes "\n"
              ++ (line (codes "in:    ") err.context
                  ++ (line (codes "file:  ") err.file
                      ++ (line (codes "detail: ") err.detail ++ line (codes "hint:  ") err.hint)))))

-- A call of one of the functions that change the report.
pub data Call : Type 0 where
  clear : Call
  set_message set_context set_detail : Text → Call
  set_file set_hint : Option Text → Call

unfoldable pub call : Call → Option Report → Option Report
call clear err = error_clear err
call (set_message text) err = error_set err text
call (set_context text) err = error_set_context err text
call (set_detail text) err = error_set_detail err text
call (set_file file) err = error_set_file err file
call (set_hint hint) err = error_set_hint err hint

unfoldable pub calls : List Call → Option Report → Option Report
calls [] err = err
calls (c ∷ cs) err = calls cs (call c err)

-- Each text and its final zero fit their buffer.
pub record Fits (err : Report) : Type 0 where
  pub message : length err.message < 256
  pub context : length err.context < 512
  pub file : length err.file < 512
  pub detail : length err.detail < 512
  pub hint : length err.hint < 256

AllFit : Option Report → Type 0
AllFit none = Unit {0}
AllFit (some err) = Fits err

call-Fits : (c : Call) (err : Option Report) → AllFit err → AllFit (call c err)
unfolding AllFit call error_clear error_set error_set_context error_set_file error_set_detail
    error_set_hint
call-Fits clear none f = tt
call-Fits (set_message text) none f = tt
call-Fits (set_context text) none f = tt
call-Fits (set_detail text) none f = tt
call-Fits (set_file file) none f = tt
call-Fits (set_hint hint) none f = tt
call-Fits clear (some err) f = record {
  message = omega arith;
  context = omega arith;
  file = omega arith;
  detail = omega arith;
  hint = omega arith;
}
call-Fits (set_message text) (some err) f = record {
  message = length-truncated 256 text (omega arith);
  context = f.context;
  file = f.file;
  detail = f.detail;
  hint = f.hint;
}
call-Fits (set_context text) (some err) f = record {
  message = f.message;
  context = length-truncated 512 text (omega arith);
  file = f.file;
  detail = f.detail;
  hint = f.hint;
}
call-Fits (set_detail text) (some err) f = record {
  message = f.message;
  context = f.context;
  file = f.file;
  detail = length-truncated 512 text (omega arith);
  hint = f.hint;
}
call-Fits (set_file none) (some err) f = f
call-Fits (set_file (some text)) (some err) f = record {
  message = f.message;
  context = f.context;
  file = length-truncated 512 text (omega arith);
  detail = f.detail;
  hint = f.hint;
}
call-Fits (set_hint none) (some err) f = f
call-Fits (set_hint (some text)) (some err) f = record {
  message = f.message;
  context = f.context;
  file = f.file;
  detail = f.detail;
  hint = length-truncated 256 text (omega arith);
}

calls-Fits : (cs : List Call) (err : Option Report) → AllFit err → AllFit (calls cs err)
unfolding calls
calls-Fits [] err f = f
calls-Fits (c ∷ cs) err f = calls-Fits cs (call c err) (call-Fits c err f)

length-line : (label text : Text) → length (line label text) ≤ length label + length text + 1
unfolding line
length-line label [] = omega arith
length-line label (c ∷ cs) =
    omega (arith, length-append label ((c ∷ cs) ++ codes "\n"), length-append (c ∷ cs) (codes "\n"))

call-kept : (c : Call) (err : Report) → (after : Report) × (call c (some err) ≡ some after)
unfolding call error_clear error_set error_set_context error_set_file error_set_detail
    error_set_hint
call-kept clear err = (_, refl)
call-kept (set_message text) err = (_, refl)
call-kept (set_context text) err = (_, refl)
call-kept (set_detail text) err = (_, refl)
call-kept (set_file none) err = (_, refl)
call-kept (set_file (some file)) err = (_, refl)
call-kept (set_hint none) err = (_, refl)
call-kept (set_hint (some hint)) err = (_, refl)

calls-kept : (cs : List Call) (err : Report) → (after : Report) × (calls cs (some err) ≡ some after)
unfolding calls
calls-kept [] err = (err, refl)
calls-kept (c ∷ cs) err =
    let (next, e) = call-kept c err in
    let (after, run) = calls-kept cs next in (after, ap (calls cs) e ∙ run)

length-error_print : (err : Report) → Fits err → length (error_print (some err)) < 2085
unfolding error_print
length-error_print err f = elim (Bool-cases (is_empty err.message)) [
  | inl e ↦ rw e (omega arith)
  | inr e ↦
      let hint = line (codes "hint:  ") err.hint in
      let detail = line (codes "detail: ") err.detail ++ hint in
      let file = line (codes "file:  ") err.file ++ detail in
      let context = line (codes "in:    ") err.context ++ file in
      rw e (
        omega (
          arith,
          length-line (codes "hint:  ") err.hint,
          length-line (codes "detail: ") err.detail,
          length-line (codes "file:  ") err.file,
          length-line (codes "in:    ") err.context,
          length-append (line (codes "detail: ") err.detail) hint,
          length-append (line (codes "file:  ") err.file) detail,
          length-append (line (codes "in:    ") err.context) file,
          length-append err.message (codes "\n" ++ context),
          f.message,
          f.context,
          f.file,
          f.detail,
          f.hint,
        ))
]

-- After any calls on a report that fits its buffers, it fits its buffers, and what is printed of it
-- has fewer than 2,085 bytes.
pub calls-bounds :
    (cs : List Call) (err : Report)
    → Fits err
    → (after : Report) × (calls cs (some err) ≡ some after)
      × Fits after
      × (length (error_print (some after)) < 2085)
unfolding AllFit
calls-bounds cs err f =
    let (after, run) = calls-kept cs err in
    let fits : Fits after = rw run at (calls-Fits cs (some err) f) in
    (after, run, fits, length-error_print after fits)
