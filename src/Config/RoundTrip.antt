-- ===== src/Config/RoundTrip.antt =====
-- A configuration is read from the file that spells it.
use amigos.Base.{
  ℕ, ◌+◌, ◌≡◌, refl, ap, sym, List, [], ◌∷◌, ◌++◌, Bool, true, false, Option, none, some, All,
  length, length-append, append_assoc, append-nil, Bytes, bytes, text_eq,
}
use amigos.Run.{done}
use amigos.Xml.{Dom, first_named, necessary_text}
use amigos.Common.Texts.{join}
use amigos.Config.{
  Zone, Config, bool_of_text, parse_bool_tag, parse_path, parse_zone, parse_zones, ipos_file,
  load_config,
}
use amigos.Config.Paths.{IsPath, split_commas-join}

-- Trees of elements.
mutual
  pub data Tree : Type 0 where
    node : Bytes → Option Bytes → Forest → Tree

  pub data Forest : Type 0 where
    end : Forest
    tree : Tree → Forest → Forest

abbrev trees : Forest → List Tree
trees end = []
trees (tree t f) = t ∷ trees f

abbrev tree_name : Tree → Bytes
tree_name (node n t f) = n

abbrev tree_text : Tree → Option Bytes
tree_text (node n t f) = t

abbrev tree_children : Tree → List Tree
tree_children (node n t f) = trees f

abbrev pub tree_dom : Dom
tree_dom = record {
  Element = Tree;
  name = tree_name;
  get_text = tree_text;
  children = tree_children;
}

abbrev leaf : Bytes → Bytes → Tree
leaf name text = node name (some text) end

abbrev bool_text : Bool → Bytes
bool_text true = bytes "true"
bool_text false = bytes "false"

abbrev pub zone_tree : Zone → Tree
zone_tree z = node (bytes "zone") none (
    tree (leaf (bytes "name") z.name) (
      tree (leaf (bytes "path") (join z.path (b',' ∷ []))) (
        tree (leaf (bytes "optional") (bool_text z.is_optional))
          (tree (leaf (bytes "needSave") (bool_text z.need_save)) end))))

abbrev pub zone_forest : List Zone → Forest
zone_forest [] = end
zone_forest (z ∷ zones) = tree (zone_tree z) (zone_forest zones)

bool_of_text-bool_text : (b : Bool) → bool_of_text (bool_text b) ≡ done b
unfolding bool_of_text text_eq
bool_of_text-bool_text true = refl
bool_of_text-bool_text false = refl

parse_zone-zone_tree : (z : Zone) → IsPath z.path → parse_zone tree_dom z.id (zone_tree z) ≡ done z
unfolding parse_zone text_eq necessary_text first_named parse_path parse_bool_tag
parse_zone-zone_tree z h = rw (
  split_commas-join z.path h,
  bool_of_text-bool_text z.is_optional,
  bool_of_text-bool_text z.need_save,
)

-- The ids are the places in the list, from `n` on.
abbrev pub Numbered : ℕ → List Zone → Type 0
Numbered n [] = Unit
Numbered n (z ∷ zones) = (z.id ≡ n) × Numbered (n + 1) zones

parse_zones-zone_forest :
    (front zones : List Zone)
    → Numbered (length front) zones
    → All (λ z. IsPath z.path) zones
    → parse_zones tree_dom front (trees (zone_forest zones)) ≡ done (front ++ zones)
unfolding parse_zones
parse_zones-zone_forest front [] n h = ap done (sym (append-nil front))
parse_zones-zone_forest front (z ∷ zones) (id, n) (h, hs) = rw (sym id) (
    rw (parse_zone-zone_tree z h) (
      rw append_assoc at (
        parse_zones-zone_forest (front ++ (z ∷ [])) zones
          (rw (sym (length-append front (z ∷ []))) at n) hs)))

-- The tag of the file of positions is left out where there is none.
abbrev ipos_forest : Bytes → Forest
ipos_forest [] = end
ipos_forest (c ∷ path) = tree (leaf (bytes "invert_index_ipos") (c ∷ path)) end

abbrev index_forest : Config → Forest
index_forest c = tree (leaf (bytes "path") c.index_data_path) (
    tree (leaf (bytes "invert_index") c.invert_index_file) (
      tree (leaf (bytes "document_info") c.doc_store_file) (
        tree (leaf (bytes "document_database") c.document_db)
          (tree (leaf (bytes "postings") c.postings_file) (ipos_forest c.invert_index_ipos_file)))))

-- The file that spells a configuration.
abbrev pub config_trees : Config → List Tree
config_trees c =
    leaf (bytes "doc_id") c.doc_id_tag
    ∷ node (bytes "raw_data") none (tree (leaf (bytes "path") c.raw_data_path) end)
    ∷ node (bytes "conf_data") none (
        tree (leaf (bytes "path") c.conf_data_path)
          (tree (leaf (bytes "stopwords_path") c.bigramer_path) end))
    ∷ node (bytes "index_data") none (index_forest c)
    ∷ node (bytes "text_zones") none (zone_forest c.text_zones)
    ∷ node (bytes "num_zones") none (zone_forest c.num_zones)
    ∷ node (bytes "trash_zones") none (zone_forest c.trash_zones)
    ∷ []

ipos_file-ipos_forest :
    (path : Bytes)
    → ipos_file tree_dom []
        (first_named tree_dom (trees (ipos_forest path)) (bytes "invert_index_ipos"))
      ≡ done path
unfolding ipos_file first_named text_eq
ipos_file-ipos_forest [] = refl
ipos_file-ipos_forest (c ∷ path) = refl

-- Zones whose ids are their places, and whose paths can be spelled.
abbrev pub AreZones : List Zone → Type 0
AreZones zones = Numbered 0 zones × All (λ z. IsPath z.path) zones

-- The constructor reads back a configuration from the elements that spell it, where the parts of the
-- zones' paths hold no comma, no path is empty or ends in an empty part, and the id of each zone is
-- its place among the zones of its kind.
pub load_config-config_trees :
    (c : Config)
    → AreZones c.text_zones
    → AreZones c.num_zones
    → AreZones c.trash_zones
    → load_config tree_dom (some (config_trees c)) ≡ done c
unfolding load_config text_eq necessary_text
load_config-config_trees c (tn, tp) (nn, np) (rn, rp) =
    rw (ipos_file-ipos_forest c.invert_index_ipos_file) (
      rw (parse_zones-zone_forest [] c.text_zones tn tp) (
        rw (parse_zones-zone_forest [] c.num_zones nn np)
          (rw (parse_zones-zone_forest [] c.trash_zones rn rp))))
