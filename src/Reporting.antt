-- ===== src/Reporting.antt =====
-- packages/seclab-core/src/seclab/reporting/exporters.py: the builder of Markdown reports. Its
-- state is the lines so far.
use seclab.Prelude.{ℕ, zero, suc, List, [], ◌∷◌, ◌++◌, map, Bool, if◌then◌else◌}
use seclab.Prelude.Text.{Text, codes}

abbrev pub MarkdownReportBuilder : Type 0
MarkdownReportBuilder = List Text

-- `separator.join(texts)`
unfoldable pub join : Text → List Text → Text
join separator [] = []
join separator (t ∷ texts) =
    let rest = join separator texts in
    t ++ elim texts [ [] ↦ [] | first ∷ others ↦ separator ++ rest ]

unfoldable pub markdown_report_builder : Text → MarkdownReportBuilder
markdown_report_builder title = (codes "# " ++ title) ∷ [] ∷ []

-- `meta(**fields)`, with the fields' texts
unfoldable pub meta : List (Text × Text) → MarkdownReportBuilder → MarkdownReportBuilder
meta fields lines =
    lines
    ++ (map (λ f. codes "- " ++ (f.0 ++ (codes ": `" ++ (f.1 ++ codes "`")))) fields ++ ([] ∷ []))

unfoldable pub hashes : ℕ → Text
hashes zero = []
hashes (suc level) = b'#' ∷ hashes level

unfoldable pub section_of : ℕ → Text → MarkdownReportBuilder → MarkdownReportBuilder
unfolding hashes
section_of level heading lines = lines ++ ((hashes level ++ (codes " " ++ heading)) ∷ [] ∷ [])

-- `section(heading)`, on level 2
unfoldable pub section : Text → MarkdownReportBuilder → MarkdownReportBuilder
section heading lines = section_of 2 heading lines

unfoldable pub paragraph : Text → MarkdownReportBuilder → MarkdownReportBuilder
paragraph text lines = lines ++ (text ∷ [] ∷ [])

unfoldable pub bullets : List Text → MarkdownReportBuilder → MarkdownReportBuilder
bullets [] lines = lines
bullets (item ∷ items) lines = lines ++ (map (λ i. codes "- " ++ i) (item ∷ items) ++ ([] ∷ []))

unfoldable pub build : MarkdownReportBuilder → Text
unfolding join
build lines = join (10 ∷ []) lines

-- `str(b)` of a truth value
unfoldable pub str_of_bool : Bool → Text
str_of_bool b = if b then codes "True" else codes "False"
