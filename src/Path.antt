-- ===== src/Path.antt =====
-- Go's path/filepath on Unix: `Clean` and `Join`, by the elements of a path.
pub mod Child
pub mod Back
use mathlib.Core.List.{foldl, reverse}
use per_node_csi_driver.Prelude.{
  Bool, true, false, ◌||◌, List, [], ◌∷◌, ◌++◌, Text, ◌==◌, nat_eq, text_eq,
}
use per_node_csi_driver.Prelude.{if◌then◌else◌}
use per_node_csi_driver.Text.{slash, dot, split, join}

abbrev pub dotdot : Text
dotdot = dot ∷ dot ∷ []

-- `..` takes the last element away. It stays where there is none, unless the path is rooted.
unfoldable pub step_back : Bool → List Text → List Text
step_back true [] = []
step_back false [] = dotdot ∷ []
step_back rooted (top ∷ stack) = if top == dotdot then dotdot ∷ top ∷ stack else stack

-- One element of the path, with the elements kept so far, the last one first.
unfoldable pub clean_step : Bool → List Text → Text → List Text
unfolding step_back
clean_step rooted stack element =
    if element == []
    then stack
    else if element == dot ∷ []
    then stack
    else if element == dotdot
    then step_back rooted stack
    else element ∷ stack

unfoldable pub is_rooted : Text → Bool
is_rooted [] = false
is_rooted (c ∷ path) = c == slash

unfoldable pub elements : Text → List Text
unfolding clean_step is_rooted split
elements path = foldl (clean_step (is_rooted path)) [] (split slash path)

unfoldable pub render : Bool → List Text → Text
unfolding join
render true stack = slash ∷ join slash (reverse stack)
render false [] = dot ∷ []
render false stack = join slash (reverse stack)

-- `filepath.Clean`
unfoldable pub clean : Text → Text
unfolding render elements is_rooted
clean path = render (is_rooted path) (elements path)

-- `filepath.Join`: leading elements that are empty are left out.
unfoldable pub join_path : List Text → Text
unfolding clean join
join_path [] = []
join_path ([] ∷ path) = join_path path
join_path (element ∷ path) = clean (join slash (element ∷ path))

has_slash : Text → Bool
has_slash [] = false
has_slash (c ∷ path) = c == slash || has_slash path

-- The path up to its last slash, that slash included.
drop_name : Text → Text
drop_name [] = []
drop_name (c ∷ path) = if has_slash (c ∷ path) then c ∷ drop_name path else []

-- `filepath.Dir`
unfoldable pub directory_of : Text → Text
unfolding clean has_slash drop_name
directory_of path = clean (drop_name path)
