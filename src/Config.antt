-- ===== src/Config.antt =====
-- `Config` of include/indexer/index_struct.h with `parseBoolTag`, `parseZone` and the constructor in
-- projects/indexer/src/index_struct.cpp.
pub mod Paths
pub mod RoundTrip
use amigos.Base.{
  ℕ, zero, suc, Bool, true, false, ◌||◌, List, [], ◌∷◌, ◌++◌, Option, none, some, ◌==◌,
  if◌then◌else◌, length, Bytes, bytes, text_eq,
}
use amigos.Run.{Run, done, throws, undefined, ◌>>=◌}
use amigos.Xml.{
  Dom, Problem, cannot_load, bad_bool, unsupported_tag, text_of, first_named, necessary_text,
}

pub record Zone : Type 0 where
  pub name : Bytes
  pub path : List Bytes
  pub is_optional : Bool
  pub need_save : Bool
  pub id : ℕ

pub record Config : Type 0 where
  pub doc_id_tag : Bytes
  pub document_db : Bytes
  pub raw_data_path : Bytes
  pub doc_store_file : Bytes
  pub postings_file : Bytes
  pub conf_data_path : Bytes
  pub bigramer_path : Bytes
  pub index_data_path : Bytes
  pub invert_index_file : Bytes
  pub invert_index_ipos_file : Bytes
  pub num_zones : List Zone
  pub text_zones : List Zone
  pub trash_zones : List Zone

-- The members in front of the constructor's body.
abbrev pub empty_config : Config
empty_config = record {
  doc_id_tag = [];
  document_db = [];
  raw_data_path = [];
  doc_store_file = [];
  postings_file = [];
  conf_data_path = [];
  bigramer_path = [];
  index_data_path = [];
  invert_index_file = [];
  invert_index_ipos_file = [];
  num_zones = [];
  text_zones = [];
  trash_zones = [];
}

-- `std::getline(iss, pathTag, ',')` until it fails: behind a comma at the end stands no further part.
unfoldable pub split_commas : Bytes → List Bytes
split_commas [] = []
split_commas (c ∷ text) = elim (c == b',') [
  | true ↦ [] ∷ split_commas text
  | false ↦ elim (split_commas text) [ [] ↦ (c ∷ []) ∷ [] | part ∷ parts ↦ (c ∷ part) ∷ parts ]
]

unfoldable pub bool_of_text : Bytes → Run Problem Bool
bool_of_text text =
    if text_eq text (bytes "true") || (text_eq text (bytes "True") || text_eq text (bytes "1"))
    then done true
    else if text_eq text (bytes "false")
        || (text_eq text (bytes "False") || text_eq text (bytes "0"))
    then done false
    else throws bad_bool

module _ (dom : Dom) where
  open dom use {Element, get_text, children}

  unfoldable pub parse_bool_tag : Option Element → Run Problem Bool
  unfolding bool_of_text
  parse_bool_tag none = done false
  parse_bool_tag (some tag) = do text ← text_of (get_text tag); bool_of_text text

  unfoldable pub parse_path : Bytes → Option Element → Run Problem (List Bytes)
  unfolding split_commas
  parse_path name none = done (name ∷ [])
  parse_path name (some tag) = do text ← text_of (get_text tag); done (split_commas text)

  unfoldable pub parse_zone : ℕ → Element → Run Problem Zone
  unfolding parse_path parse_bool_tag first_named necessary_text
  parse_zone id e = do
    name ← necessary_text dom e (bytes "name")
    path ← parse_path name (first_named dom (children e) (bytes "path"))
    is_optional ← parse_bool_tag (first_named dom (children e) (bytes "optional"))
    need_save ← parse_bool_tag (first_named dom (children e) (bytes "needSave"))
    done (record {
      name = name;
      path = path;
      is_optional = is_optional;
      need_save = need_save;
      id = id;
    })

  -- The loop over the tags of one kind of zones.
  unfoldable pub parse_zones : List Zone → List Element → Run Problem (List Zone)
  unfolding parse_zone
  parse_zones zones [] = done zones
  parse_zones zones (e ∷ es) = do
    zone ← parse_zone (length zones) e
    parse_zones (zones ++ (zone ∷ [])) es

  -- The optional tag of the file of positions.
  unfoldable pub ipos_file : Bytes → Option Element → Run Problem Bytes
  ipos_file old none = done old
  ipos_file old (some tag) = text_of (get_text tag)

  unfoldable pub load_doc_id : Config → Element → Run Problem Config
  load_doc_id c tag = do text ← text_of (get_text tag); done (record c { doc_id_tag = text })

  unfoldable pub load_raw_data : Config → Element → Run Problem Config
  unfolding necessary_text
  load_raw_data c tag = do
    path ← necessary_text dom tag (bytes "path")
    done (record c { raw_data_path = path })

  unfoldable pub load_conf_data : Config → Element → Run Problem Config
  unfolding necessary_text
  load_conf_data c tag = do
    path ← necessary_text dom tag (bytes "path")
    stopwords ← necessary_text dom tag (bytes "stopwords_path")
    done (record c { conf_data_path = path; bigramer_path = stopwords })

  unfoldable pub load_index_data : Config → Element → Run Problem Config
  unfolding necessary_text ipos_file first_named
  load_index_data c tag = do
    path ← necessary_text dom tag (bytes "path")
    invert_index ← necessary_text dom tag (bytes "invert_index")
    document_info ← necessary_text dom tag (bytes "document_info")
    database ← necessary_text dom tag (bytes "document_database")
    postings ← necessary_text dom tag (bytes "postings")
    ipos ←
        ipos_file c.invert_index_ipos_file
          (first_named dom (children tag) (bytes "invert_index_ipos"))
    done (record c {
      index_data_path = path;
      invert_index_file = invert_index;
      doc_store_file = document_info;
      document_db = database;
      postings_file = postings;
      invert_index_ipos_file = ipos;
    })

  unfoldable pub load_text_zones : Config → Element → Run Problem Config
  unfolding parse_zones
  load_text_zones c tag = do
    zones ← parse_zones c.text_zones (children tag)
    done (record c { text_zones = zones })

  unfoldable pub load_num_zones : Config → Element → Run Problem Config
  unfolding parse_zones
  load_num_zones c tag = do
    zones ← parse_zones c.num_zones (children tag)
    done (record c { num_zones = zones })

  unfoldable pub load_trash_zones : Config → Element → Run Problem Config
  unfolding parse_zones
  load_trash_zones c tag = do
    zones ← parse_zones c.trash_zones (children tag)
    done (record c { trash_zones = zones })

  -- One round of the constructor's loop.
  unfoldable pub load_tag : Config → Element → Run Problem Config
  unfolding load_doc_id load_raw_data load_conf_data load_index_data load_text_zones load_num_zones
      load_trash_zones
  load_tag c tag =
      if text_eq (dom.name tag) (bytes "doc_id")
      then load_doc_id c tag
      else if text_eq (dom.name tag) (bytes "raw_data")
      then load_raw_data c tag
      else if text_eq (dom.name tag) (bytes "conf_data")
      then load_conf_data c tag
      else if text_eq (dom.name tag) (bytes "index_data")
      then load_index_data c tag
      else if text_eq (dom.name tag) (bytes "text_zones")
      then load_text_zones c tag
      else if text_eq (dom.name tag) (bytes "num_zones")
      then load_num_zones c tag
      else if text_eq (dom.name tag) (bytes "trash_zones")
      then load_trash_zones c tag
      else throws (unsupported_tag (dom.name tag))

  unfoldable pub load_tags : Config → List Element → Run Problem Config
  unfolding load_tag
  load_tags c [] = done c
  load_tags c (tag ∷ tags) = do c ← load_tag c tag; load_tags c tags

  -- `Config(configPath)`, where the file holds these elements at its top; `none` cannot be loaded.
  unfoldable pub load_config : Option (List Element) → Run Problem Config
  unfolding load_tags
  load_config none = throws cannot_load
  load_config (some tags) = load_tags empty_config tags
