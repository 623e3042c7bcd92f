-- ===== src/Xml.antt =====
-- The elements of tinyxml2, by the calls that the indexer makes, and
-- projects/indexer/include/tinyxml2_ext.hpp.
use amigos.Base.{true, false, List, [], ◌∷◌, Option, none, some, Bytes, text_eq}
use amigos.Run.{Run, done, throws, undefined, ◌>>=◌}

-- An element has a name, perhaps a text (`GetText`), and its child elements in the order of the
-- document, which `FirstChildElement` and `NextSiblingElement` go through.
pub record Dom : Type 1 where
  pub Element : Type 0
  pub name : Element → Bytes
  pub get_text : Element → Option Bytes
  pub children : Element → List Element

-- The exceptions of the indexer, by what their messages tell.
pub data Problem : Type 0 where
  cannot_load : Problem
  no_tag : Bytes → Problem
  bad_bool : Problem
  unsupported_tag : Bytes → Problem
  zone_is_necessary : Bytes → Problem
  incorrect_tag : Bytes → Problem
  wrong_zone_counts : Problem
  no_directory : Bytes → Problem
  not_a_directory : Bytes → Problem
  not_regular : Bytes → Problem
  parse_failed : Bytes → Problem → Problem

-- A null pointer made a `std::string` is undefined.
abbrev pub text_of : Option Bytes → Run Problem Bytes
text_of none = undefined
text_of (some text) = done text

module _ (dom : Dom) where
  open dom use {Element, name, get_text, children}

  -- `FirstChildElement(tag)` among these elements.
  unfoldable pub first_named : List Element → Bytes → Option Element
  first_named [] tag = none
  first_named (e ∷ es) tag = elim (text_eq (name e) tag) [
    | true ↦ some e
    | false ↦ first_named es tag
  ]

  unfoldable pub get_necessary_tag : Element → Bytes → Run Problem Element
  unfolding first_named
  get_necessary_tag e tag = elim (first_named (children e) tag) [
    | none ↦ throws (no_tag tag)
    | some child ↦ done child
  ]

  -- `getNecessaryTag(e, tag)->GetText()`, made a `std::string`.
  unfoldable pub necessary_text : Element → Bytes → Run Problem Bytes
  unfolding get_necessary_tag
  necessary_text e tag = do child ← get_necessary_tag e tag; text_of (get_text child)
