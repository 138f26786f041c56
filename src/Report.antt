-- ===== src/Report.antt =====
-- verify/reporter.hpp: the report of a probe of the verification harness, as text or as a JSON object. A
-- string is the list of its characters' codes. The JSON text is modelled; the other is printed alone.
pub mod Quote
mod Tests
use jmpxx.Prelude.{
  ℕ, zero, suc, ◌+◌, ◌-◌, ◌*◌, ◌/◌, ◌%◌, ◌^◌, ◌≤◌, ◌<◌, ◌≡◌, refl, sym, ap, ◌∙◌, ◌≢◌, ◌↔◌, ◌⊎◌, inl,
  inr, Bool, true, false, not, ◌&&◌, ◌||◌, Option, none, some, List, [], ◌∷◌, ◌++◌, map, arith, ltb,
  leb, ◌==◌, if◌then◌else◌, ltb→lt, lt→ltb, leb→le, ==_iff, tests, Bool-cases, Option-cases, length,
  get_elem?, set, length-append, length-set, get_elem?-set_self, get_elem?-set_ne, get_or, take,
  drop, replicate, take-append-drop, length-take, length-drop, length-replicate, length-map,
  take-set_last, take-take, map-take, take-all, get_elem?-some, take-append,
}
use jmpxx.Prelude.Text.{String}
use jmpxx.Prelude.Codes.{codes}

pub record Report : Type 0 where
  pub probe : String
  pub ok : Bool
  pub metrics : List (String × String)
  pub notes : List String

-- The constructor.
abbrev pub empty_report : String → Report
empty_report probe = record { probe = probe; ok = true; metrics = []; notes = [] }

-- What the loop of `quote` appends for a character.
abbrev pub quote_char : ℕ → String
quote_char c =
    let escape : String = if c == b'"' || c == b'\\' then b'\\' ∷ [] else [] in
    if c == b'\n' then escape ++ b'\\' ∷ b'n' ∷ [] else escape ++ c ∷ []

abbrev pub quote_chars : String → String
quote_chars [] = []
quote_chars (c ∷ s) = quote_char c ++ quote_chars s

unfoldable pub quote : String → String
quote s = b'"' ∷ (quote_chars s ++ b'"' ∷ [])

abbrev pub metric : String → String → Report → Report
metric key value r = record r { metrics = r.metrics ++ (key, value) ∷ [] }

-- `num`, with the text of the number, `boolean`, `str`, `note` and `fail`.
unfoldable pub num : String → String → Report → Report
num key digits = metric key digits

unfoldable pub boolean : String → Bool → Report → Report
boolean key v = metric key (if v then codes "true" else codes "false")

unfoldable pub str : String → String → Report → Report
unfolding quote
str key v = metric key (quote v)

unfoldable pub note : String → Report → Report
note n r = record r { notes = r.notes ++ n ∷ [] }

unfoldable pub fail : String → Report → Report
fail why r = record r { ok = false; notes = r.notes ++ why ∷ [] }

-- The loops of `finish`: a comma before all but the first.
abbrev pub separated : List String → String
separated [] = []
separated (s ∷ []) = s
separated (s ∷ t ∷ ts) = s ++ (b',' ∷ separated (t ∷ ts))

abbrev pub render_metric : String × String → String
render_metric m = quote m.0 ++ (b':' ∷ m.1)

unfoldable pub render : Report → String
unfolding quote
render r =
    codes "{\"probe\":"
    ++ (quote r.probe
        ++ (codes ",\"ok\":"
            ++ ((if r.ok then codes "true" else codes "false")
                ++ (codes ",\"metrics\":{"
                    ++ (separated (map render_metric r.metrics)
                        ++ (codes "},\"notes\":["
                            ++ (separated (map quote r.notes) ++ codes "]}")))))))

-- The exit code with the line that is printed.
unfoldable pub finish : Report → String × ℕ
unfolding render
finish r = (render r, if r.ok then 0 else 1)
