-- ===== src/Config/Help.antt =====
-- The text of `--help`: `env_var_info` of src/config.rs and `print_help` of bin/filler.rs.
use Prim.Native.String.{String, ◌++◌, ◌∷◌ as ◌▸◌, [] as empty, len, count}
use Prim.Native.String.len
use text.Mathlib.TextLemmas.{length-append, length-nil, length-cons}
use text.Mathlib.TextPositions.{len_utf8-pos}
use signet_filler.Prelude.{
  ℕ, zero, suc, ◌+◌, ◌-◌, ◌≤◌, ◌≡◌, refl, ◌∙◌, Bool, List, [], ◌∷◌, map, max, if◌then◌else◌, arith,
  All, All-weaken,
}

-- An entry of the inventory that the derive macro of the crate `init4_bin_base` makes.
pub record EnvItem : Type 0 where
  pub var : String
  pub description : String
  pub is_optional : Bool

abbrev pub spaces : ℕ → String
spaces zero = ""
spaces (suc n) = " " ++ spaces n

-- `{:width$}` fills a text up to `width` characters.
unfoldable pub pad : ℕ → String → String
pad width text = text ++ spaces (width - count text)

-- The largest of the lengths, in bytes, or 0.
unfoldable pub max_width : List EnvItem → ℕ
max_width [] = 0
max_width (item ∷ rest) = max (len item.var) (max_width rest)

abbrev pub mark : Bool → String
mark is_optional = if is_optional then " [optional]" else ""

unfoldable pub env_line : ℕ → EnvItem → String
unfolding pad
env_line width item =
    ("  " ++ (pad width item.var ++ "  ")) ++ (item.description ++ mark item.is_optional)

-- `join` of the crate `itertools`
unfoldable pub join : String → List String → String
join separator [] = ""
join separator (line ∷ []) = line
join separator (line ∷ next ∷ rest) = line ++ (separator ++ join separator (next ∷ rest))

abbrev pub env_lines : List EnvItem → List String
env_lines inventory = map (env_line (max_width inventory)) inventory

unfoldable pub env_var_info : List EnvItem → String
unfolding max_width env_line join
env_var_info inventory = join "\n" (env_lines inventory)

-- The text has a line break at its end, and `println!` adds another.
unfoldable pub print_help : String → List EnvItem → String
unfolding env_var_info
print_help version inventory =
    "Signet filler service v"
    ++ (version
        ++ ("\n\nRun with no args. The process will run until it receives a SIGTERM or SIGINT signal.\n\nConfiguration is via the following environment variables:\n"
            ++ (env_var_info inventory ++ "\n\n")))

count-spaces : (n : ℕ) → count (spaces n) ≡ n
count-spaces zero = refl
count-spaces (suc n) = length-append " " (spaces n) ∙ omega (arith, count-spaces n)

count-le-len : (s : String) → count s ≤ len s
count-le-len empty = rw (length-nil) (omega arith)
count-le-len (c ▸ s) =
    omega (arith, count-le-len s, length-cons c s, len.cons c s, (len_utf8-pos c).1)

count-pad : (width : ℕ) (text : String) → len text ≤ width → count (pad width text) ≡ width
unfolding pad
count-pad width text h =
    length-append text (spaces (width - count text))
    ∙ omega (arith, count-spaces (width - count text), count-le-len text)

-- The line is the name of the variable, filled up with spaces to a column, and then its description.
abbrev pub IsAt : ℕ → EnvItem → String → Type 0
IsAt column item line =
    (n : ℕ) × (line
      ≡ ("  " ++ ((item.var ++ spaces n) ++ "  ")) ++ (item.description ++ mark item.is_optional))
    × (count ("  " ++ ((item.var ++ spaces n) ++ "  ")) ≡ column)

env_line-IsAt :
    (width : ℕ) (item : EnvItem)
    → len item.var ≤ width
    → IsAt (width + 4) item (env_line width item)
unfolding env_line pad
env_line-IsAt width item h = (
  width - count item.var,
  refl,
  length-append "  " (pad width item.var ++ "  ")
      ∙ omega (arith, length-append (pad width item.var) "  ", count-pad width item.var h),
)

max_width-le :
    (inventory : List EnvItem) (bound : ℕ)
    → max_width inventory ≤ bound
    → All (λ i. len i.var ≤ bound) inventory
unfolding max_width
max_width-le [] bound h = tt
max_width-le (item ∷ rest) bound h = (omega arith, max_width-le rest bound (omega arith))

-- Each line of the help text has the whole name of its variable, and the descriptions of all variables
-- begin at the same column, which is the length of the longest name and four characters.
pub env_lines-AreAligned :
    (inventory : List EnvItem)
    → All (λ i. IsAt (max_width inventory + 4) i (env_line (max_width inventory) i)) inventory
env_lines-AreAligned inventory =
    All-weaken _ _ inventory (env_line-IsAt (max_width inventory))
      (max_width-le inventory (max_width inventory) (omega arith))
