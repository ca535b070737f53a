-- ===== src/Utils/JsonTests.antt =====
-- JSON values as trees, to run the configuration of src/LumenConfigManager.cpp on. They are printed
-- without white space, and the only file that is read is the printed template.
use lumen_engine.Prelude.{
  ℕ, true, false, ◌≡◌, refl, ap, ◌∙◌, ◌+◌, Option, none, some, List, [], ◌∷◌, ◌++◌, if◌then◌else◌,
}
use lumen_engine.Core.Types.{Text}
use lumen_engine.Utils.Config.{
  Json, ConfigManager, same_text, new_config, load_from_file, get_metadata_extra, set_batch_size,
  set_queue_type, QueueType,
}
use lumen_engine.Utils.Config.Template.{JsonWriter, Files, template, save_template}
use lumen_engine.Utils.Config.Saved.{
  member, is_some, same_text_refl, ReadsWritten, template_settings, load_from_file-save_template,
}
use lumen_engine.Utils.Texts.{text_label_path, text_synset_words}

mutual
  data Value : Type 0 where
    null : Value
    text : Text → Value
    number : ℕ → Value
    object : Members → Value

  data Members : Type 0 where
    no_members : Members
    with_member : Text → Value → Members → Members

unfoldable mutual
  print : Value → Text
  print null = 110 ∷ 117 ∷ 108 ∷ 108 ∷ []
  print (text t) = 34 ∷ t ++ 34 ∷ []
  print (number n) = (48 + n) ∷ []
  print (object fields) = 123 ∷ print_members fields

  print_members : Members → Text
  print_members no_members = 125 ∷ []
  print_members (with_member key j rest) = 34 ∷ key ++ 34 ∷ 58 ∷ print j ++ 44 ∷ print_members rest

abbrev members : List (Text × Value) → Members
members [] = no_members
members ((key, j) ∷ rest) = with_member key j (members rest)

abbrev find_member : Text → Members → Option Value
find_member key no_members = none
find_member key (with_member other j rest) =
    if same_text key other then some j else find_member key rest

abbrev member_of : Value → Text → Option Value
member_of (object fields) key = find_member key fields
member_of _ key = none

abbrev at_key : Option Value → Value
at_key none = null
at_key (some j) = j

abbrev get_text : Value → Option Text
get_text (text t) = some t
get_text _ = none

abbrev get_size : Value → Option ℕ
get_size (number n) = some n
get_size _ = none

abbrev tree_writer : JsonWriter Value
tree_writer = record {
  text = text;
  number = number;
  object = λ fields. object (members fields);
  dump = λ indent j. print j;
}

abbrev tree_json : Json Value
tree_json = record {
  parse = λ file.
      if same_text file (print (template tree_writer)) then some (template tree_writer) else none;
  contains = λ j key. is_some (member_of j key);
  at = λ j key. at_key (member_of j key);
  get_size = get_size;
  get_text = get_text;
  value = λ j key default.
      if is_some (member_of j key) then get_text (at_key (member_of j key)) else some default;
  object = λ key t. object (with_member key (text t) no_members);
}

find_member-members :
    (key : Text) (fields : List (Text × Value))
    → find_member key (members fields) ≡ member key fields
find_member-members key [] = refl
find_member-members key ((other, j) ∷ rest) =
    ap (λ o. if same_text key other then some j else o) (find_member-members key rest)

tree-ReadsWritten : ReadsWritten tree_json tree_writer
tree-ReadsWritten = record {
  contains-object = λ fields key. ap is_some (find_member-members key fields);
  at-object = λ fields key j e. ap at_key (find_member-members key fields ∙ e);
  value-contains = λ j key default e. rw e;
  get_text-text = λ t. refl;
  get_size-number = λ n. refl;
  parse-dump = rw (same_text_refl (print (template tree_writer)));
}

abbrev no_files : Files
no_files path = none

-- The settings that a caller has changed with the setters.
abbrev changed_config : ConfigManager Value
changed_config = set_queue_type QueueType.batched (set_batch_size 8 (new_config tree_json))

load_from_file-save_template_example :
    (load_from_file tree_json
        (save_template tree_writer (λ path. true) text_label_path no_files text_label_path)
        changed_config
      ≡ template_settings tree_writer)
    × (get_metadata_extra tree_json text_label_path (template_settings tree_writer)
        ≡ some text_synset_words)
    × ((other : Text)
        → same_text other text_label_path ≡ false
        → save_template tree_writer (λ path. true) text_label_path no_files other ≡ none)
load_from_file-save_template_example =
    load_from_file-save_template tree_json tree_writer tree-ReadsWritten (λ path. true)
      text_label_path no_files changed_config refl
