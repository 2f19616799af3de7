-- ===== src/Pagination.antt =====
-- Offset pagination: src/utils/pagination.ts. A query value is what `parseQueryNumber` makes of it.
pub mod Range
use acbu_backend.Prelude.{
  ℕ, ◌/◌, Bool, Option, none, some, ltb, leb, if◌then◌else◌, min, max, Fraction,
}

abbrev pub default_page_limit : ℕ
default_page_limit = 20

abbrev pub max_page_limit : ℕ
max_page_limit = 100

abbrev pub max_page_offset : ℕ
max_page_offset = 2147483647

-- What a query value is: not a finite number, or one of the finite numbers by their sign.
pub data Query : Type 0 where
  unusable below_zero : Query
  number : Fraction → Query

pub record OffsetPagination : Type 0 where
  pub limit : ℕ
  pub offset : ℕ

-- `Math.floor`
abbrev pub floor : Fraction → ℕ
floor q = q.num / q.den

abbrev requested_limit : ℕ → ℕ → Query → ℕ
requested_limit max_limit default_limit (number q) =
    if leb q.den q.num then min max_limit (floor q) else default_limit
requested_limit max_limit default_limit _ = default_limit

abbrev requested_offset : Query → ℕ
requested_offset (number q) = if ltb 0 q.num then min max_page_offset (floor q) else 0
requested_offset _ = 0

abbrev or_default : ℕ → Option ℕ → ℕ
or_default d none = d
or_default d (some n) = n

-- `parseOffsetPagination`, for options that are whole numbers.
unfoldable pub parse_offset_pagination : Query → Query → Option ℕ → Option ℕ → OffsetPagination
parse_offset_pagination limit offset default_option max_option =
    let max_limit = max 1 (or_default max_page_limit max_option) in
    let default_limit = min max_limit (max 1 (or_default default_page_limit default_option)) in
    record {
      limit = requested_limit max_limit default_limit limit;
      offset = requested_offset offset;
    }
