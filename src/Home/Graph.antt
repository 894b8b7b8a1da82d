-- ===== src/Home/Graph.antt =====
-- frontend/lib/hero-graph.ts and frontend/lib/entity-routes.ts: what a click on a star of the hero's
-- graph does, and where an entity's page is.
use rank_verse.Base.{
  Bool, true, false, ◌||◌, ◌&&◌, String, Option, none, some, List, [], ◌∷◌, ◌++◌, map, str_eq,
  if◌then◌else◌, ◌≡◌, refl, ap, Bool-cases, inl, inr,
}
use rank_verse.Base.Text.{Text, codes}

-- `DETAIL_PATH_BY_TYPE`
abbrev pub base_path : String → Option Text
base_path type =
    if str_eq type "movie"
    then some (codes "/movies")
    else if str_eq type "tv_series"
    then some (codes "/tv-series")
    else if str_eq type "person"
    then some (codes "/person")
    else if str_eq type "genre"
    then some (codes "/genre")
    else if str_eq type "track"
    then some (codes "/track")
    else none

unfoldable pub detail_path_for : String → Text → Option Text
detail_path_for type slug = elim (base_path type) [
  | none ↦ none
  | some base ↦ some (base ++ codes "/" ++ slug)
]

pub record EgoNode : Type 0 where
  pub id : String
  pub slug : Text
  pub title : String
  pub entity_type : String
  pub credits : List String

pub record EgoGraph : Type 0 where
  pub center_id : String
  pub nodes : List EgoNode

pub data NodeAction : Type 0 where
  recenter navigate : Text → NodeAction
  nothing : NodeAction

abbrev navigation : Option Text → NodeAction
navigation none = nothing
navigation (some href) = navigate href

abbrev pub is_explored : String → Bool
is_explored type =
    str_eq type "movie" || str_eq type "tv_series" || str_eq type "person" || str_eq type "genre"

unfoldable pub action_for_node : EgoNode → String → NodeAction
unfolding detail_path_for
action_for_node node center_id =
    if str_eq node.id center_id
    then nothing
    else if is_explored node.entity_type
    then recenter node.slug
    else navigation (detail_path_for node.entity_type node.slug)

unfoldable pub find_node : String → List EgoNode → Option EgoNode
find_node id [] = none
find_node id (n ∷ nodes) = let rest = find_node id nodes in if str_eq n.id id then some n else rest

unfoldable pub center_node_of : Option EgoGraph → Option EgoNode
unfolding find_node
center_node_of none = none
center_node_of (some graph) = find_node graph.center_id graph.nodes

-- Absent credits and none are the same to the code.
abbrev pub is_nil {ℓ} : {A : Type ℓ} → List A → Bool
is_nil [] = true
is_nil (x ∷ xs) = false

abbrev pub with_credits : String → List String → EgoNode → EgoNode
with_credits center_id credits n =
    if str_eq n.id center_id && is_nil n.credits then record n { credits = credits } else n

unfoldable pub keep_credits : EgoGraph → EgoNode → EgoGraph
keep_credits graph clicked =
    if is_nil clicked.credits
    then graph
    else record graph { nodes = map (with_credits graph.center_id clicked.credits) graph.nodes }

ids-with_credits :
    (center_id : String) (credits : List String) (nodes : List EgoNode)
    → map (λ n. n.id) (map (with_credits center_id credits) nodes) ≡ map (λ n. n.id) nodes
ids-with_credits center_id credits [] = refl
ids-with_credits center_id credits (n ∷ nodes) =
    let rest = ids-with_credits center_id credits nodes in
    elim (Bool-cases (str_eq n.id center_id && is_nil n.credits)) [
      | inl e ↦ rw e (ap (λ r. n.id ∷ r) rest)
      | inr e ↦ rw e (ap (λ r. n.id ∷ r) rest)
    ]

-- Credits that are kept leave the graph's stars as they are.
keep_credits-ids :
    (graph : EgoGraph) (clicked : EgoNode)
    → map (λ n. n.id) (keep_credits graph clicked).nodes ≡ map (λ n. n.id) graph.nodes
unfolding keep_credits
keep_credits-ids graph clicked = elim (Bool-cases (is_nil clicked.credits)) [
  | inl e ↦ rw e refl
  | inr e ↦ rw e (ids-with_credits graph.center_id clicked.credits graph.nodes)
]
