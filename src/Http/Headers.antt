-- ===== src/Http/Headers.antt =====
-- `HttpRequestHeaders` of src/http/handlers.ts and `readHeader`, which src/http/csrf.ts and
-- src/http/origin-validation.ts both have. A header map is the list of its entries, each name once.
use swooshz_platform.Base.{String, Bool, Option, none, some, List, [], ◌∷◌, ◌==◌, if◌then◌else◌}
use swooshz_platform.Base.Text.{is_empty}

abbrev pub HttpRequestHeaders : Type 0
HttpRequestHeaders = List (String × Option String)

-- `headers[name]`
abbrev pub entry : String → HttpRequestHeaders → Option String
entry name [] = none
entry name ((k, v) ∷ rest) = if k == name then v else entry name rest

-- The value under the first name that passes; the empty name counts as none.
abbrev pub entry_where : (String → Bool) → HttpRequestHeaders → Option String
entry_where p [] = none
entry_where p ((k, v) ∷ rest) = if p k then (if is_empty k then none else v) else entry_where p rest

-- `exact` if it is there, else the value under a name that differs in case.
abbrev pub or_matching : (String → Bool) → HttpRequestHeaders → Option String → Option String
or_matching p headers (some v) = some v
or_matching p headers none = entry_where p headers

abbrev pub read_header : (String → String) → Option HttpRequestHeaders → String → Option String
read_header to_lower_case none name = none
read_header to_lower_case (some headers) name =
    or_matching (λ k. to_lower_case k == to_lower_case name) headers (entry name headers)
