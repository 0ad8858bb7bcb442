-- ===== src/PrintJob/Ascii.antt =====
-- The ASCII helpers at the top of bambu-farm-client/cpp/print_job.cpp.
use mathlib.Core.List.{reverse}
use bambu_farm.Base.{
  ℕ, ◌+◌, ◌-◌, Bool, false, ◌&&◌, ◌||◌, ltb, leb, ◌==◌, if◌then◌else◌, [], ◌∷◌, map, length, drop,
}
use bambu_farm.Base.Text.{Text, codes, text_eq}

unfoldable pub lower_byte : ℕ → ℕ
lower_byte c = if leb b'A' c && leb c b'Z' then c - b'A' + b'a' else c

unfoldable pub to_lower_ascii : Text → Text
to_lower_ascii value = map lower_byte value

unfoldable pub ends_with_case_insensitive : Text → Text → Bool
ends_with_case_insensitive value suffix =
    if ltb (length value) (length suffix)
    then false
    else text_eq (to_lower_ascii (drop (length value - length suffix) value))
        (to_lower_ascii suffix)

-- `std::isspace` in the C locale.
unfoldable pub is_space : ℕ → Bool
is_space c = c == b' ' || (leb 9 c && leb c 13)

-- `while (!value.empty() && test(value.front())) value.erase(value.begin());`
unfoldable pub drop_front : (ℕ → Bool) → Text → Text
drop_front test [] = []
drop_front test (c ∷ s) = if test c then drop_front test s else c ∷ s

-- The same from the back, with `value.pop_back()`.
unfoldable pub drop_back : (ℕ → Bool) → Text → Text
drop_back test s = reverse (drop_front test (reverse s))

unfoldable pub trim_ascii : Text → Text
trim_ascii value = drop_back is_space (drop_front is_space value)

-- The first byte decides, else the three words.
unfoldable pub looks_like_trimmed : Text → Bool
looks_like_trimmed [] = false
looks_like_trimmed (first ∷ rest) =
    (first == b'['
      || first == b'{'
      || first == b'"'
      || first == b'-'
      || (leb b'0' first && leb first b'9'))
    || text_eq (first ∷ rest) (codes "true")
    || text_eq (first ∷ rest) (codes "false")
    || text_eq (first ∷ rest) (codes "null")

unfoldable pub looks_like_json_value : Text → Bool
looks_like_json_value value = looks_like_trimmed (trim_ascii value)
