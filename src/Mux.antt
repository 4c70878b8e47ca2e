-- ===== src/Mux.antt =====
-- What the servers use of net/http: requests with their headers, and the patterns of ServeMux: a method and a path of segments,
-- of which some stand for any one segment. A pattern for GET takes HEAD as well.
use unified_service_schedule.Common.{
  String, Bool, true, false, Option, none, some, List, [], ◌∷◌, ◌==◌, if◌then◌else◌,
}

pub data Method : Type 0 where
  get head post delete options other : Method

pub data Segment : Type 0 where
  literal : String → Segment
  wildcard : Segment

-- A pattern and what it was registered for.
pub record Route (H : Type 0) : Type 0 where
  pub method : Method
  pub path : List Segment
  pub handler : H

-- the method of a pattern takes the request's
unfoldable pub takes : Method → Method → Bool
takes get get = true
takes get head = true
takes post post = true
takes delete delete = true
takes _ _ = false

-- The values of the wildcards, if the path matches.
unfoldable pub match_path : List Segment → List String → Option (List String)
match_path [] [] = some []
match_path [] (s ∷ ss) = none
match_path (p ∷ ps) [] = none
match_path (literal l ∷ ps) (s ∷ ss) = let rest = match_path ps ss in if l == s then rest else none
match_path (wildcard ∷ ps) (s ∷ ss) = elim (match_path ps ss) [
  | none ↦ none
  | some vs ↦ some (s ∷ vs)
]

-- What the mux makes of a request: a handler with the values of the wildcards, 404, or 405 where
-- only patterns of other methods match.
pub data Found (H : Type 0) : Type 0 where
  found : H → List String → Found H
  no_method no_path : Found H

abbrev or_no_method : {H : Type 0} → Found H → Found H
or_no_method no_path = no_method
or_no_method f = f

abbrev try_route : {H : Type 0} → Route H → Method → Option (List String) → Found H → Found H
try_route r m none rest = rest
try_route r m (some vs) rest = if takes r.method m then found r.handler vs else or_no_method rest

-- No two patterns of a server match one request, so their order is of no matter.
unfoldable pub lookup : {H : Type 0} → List (Route H) → Method → List String → Found H
unfolding takes match_path
lookup [] m path = no_path
lookup (r ∷ rs) m path = try_route r m (match_path r.path path) (lookup rs m path)

-- A request's headers by their canonical names.
abbrev pub Headers : Type 0
Headers = String → List String

-- Header.Get
unfoldable pub get_header : String → Headers → String
get_header key h = elim (h key) [ [] ↦ "" | v ∷ vs ↦ v ]

-- Header.Set
unfoldable pub set_header : String → String → Headers → Headers
set_header key value h key' = if key == key' then value ∷ [] else h key'

-- `B` is what a body is.
pub record Request (B : Type 0) : Type 0 where
  pub method : Method
  pub path : List String
  pub headers : Headers
  pub body : B
