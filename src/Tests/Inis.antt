-- ===== src/Tests/Inis.antt =====
-- A small ini package, which shows that the laws asked of one can hold: a text is read line by
-- line.
use Prim.Native.String.{len, slice}
use pos_data_showcase.Prelude.{
  ℕ, zero, suc, String, ◌<>◌, ◌+◌, Option, none, some, List, [], ◌∷◌, ◌++◌, find?, ◌≡◌, refl, sym,
  ap, ◌∙◌,
}
use pos_data_showcase.Prelude.Dict.{Dict, lookup, lookup-cons}
use pos_data_showcase.Prelude.Strings.{split, split_from, trim_prefix, trim_suffix}
use pos_data_showcase.Kube.Exec.{Result, ok}
use pos_data_showcase.Metadata.Laws.{or_else}
use pos_data_showcase.Resource.Ini.{IniPackage}
use pos_data_showcase.Resource.ServerConfig.{default_tls_conf}
use pos_data_showcase.Resource.ServerConfig.Files.{default_tls_text}
use pos_data_showcase.Resource.ServerConfig.Listeners.{lookup-append}
use pos_data_showcase.Resource.ServerConfig.Precedence.{IniLaws}

-- What the texts that were read hold, and all that the file holds.
pub record Ini : Type 0 where
  pub sources : Dict String
  pub entries : Dict String

abbrev without_end : ℕ → String → String
without_end zero s = s
without_end (suc n) s = without_end n (trim_suffix s " ")

abbrev trim : String → String
trim s = trim_prefix (without_end 8 s) " "

abbrev add_line : String → Dict String → Dict String
add_line line rest = elim (find? line "=") [
  | none ↦ rest
  | some i ↦ (trim (slice line 0 i), trim (slice line (i + 1) (len line))) ∷ rest
]

abbrev read_lines : List String → Dict String
read_lines [] = []
read_lines (line ∷ rest) = add_line line (read_lines rest)

read_text : String → Dict String
read_text text = read_lines (split text "\n")

abbrev printed : Dict String → String
printed [] = ""
printed ((k, v) ∷ m) = k <> (" = " <> (v <> ("\n" <> printed m)))

unfoldable pub load_text : String → Result Ini
unfolding read_text
load_text text = ok (record { sources = read_text text; entries = read_text text })

unfoldable pub append_text : String → Ini → Result Ini
unfolding read_text
append_text text f = ok (record {
  sources = read_text text ++ f.sources;
  entries = read_text text ++ (f.sources ++ f.entries);
})

unfoldable pub write_file : Ini → Result String
write_file f = ok (printed f.entries)

abbrev pub test_ini : IniPackage Ini
test_ini = record {
  empty = record { sources = []; entries = [] };
  load = load_text;
  append = append_text;
  new_key = λ k v f. ok (record f { entries = (k, v) ∷ f.entries });
  write_to = write_file;
}

abbrev pub get_entry : String → Ini → Option String
get_entry k f = lookup k f.entries

abbrev pub get_sourced : String → Ini → Option String
get_sourced k f = lookup k f.sources

tls_text_read : read_text default_tls_text ≡ default_tls_conf
unfolding read_text split split_from trim_prefix trim_suffix
tls_text_read = refl

ok-injective : {A : Type 0} (a b : A) → ok a ≡ ok b → a ≡ b
ok-injective a b e = cc e

loaded : (t : String) (g : Ini) → load_text t ≡ ok g → g.entries ≡ read_text t
unfolding load_text
loaded t g e = sym (ap (λ (x : Ini). x.entries) (ok-injective _ g e))

appended :
    (t : String) (f f' : Ini)
    → append_text t f ≡ ok f'
    → (f'.sources ≡ read_text t ++ f.sources)
      × (f'.entries ≡ read_text t ++ (f.sources ++ f.entries))
unfolding append_text
appended t f f' e =
    let same = sym (ok-injective _ f' e) in
    (ap (λ (x : Ini). x.sources) same, ap (λ (x : Ini). x.entries) same)

none_there : (k : String) → lookup {V = String} k [] ≡ none
unfolding lookup
none_there k = refl

load_lem : (t : String) → load_text t ≡ ok (record { sources = read_text t; entries = read_text t })
unfolding load_text
load_lem t = refl

pub test_ini_laws : IniLaws test_ini get_entry get_sourced
test_ini_laws = record {
  get_empty = λ k. none_there k;
  sourced_empty = λ k. none_there k;
  get_new_key =
      λ j v f f' e k. ap (get_entry k) (sym (ok-injective _ f' e)) ∙ lookup-cons k j v f.entries;
  sourced_new_key = λ j v f f' e k. ap (get_sourced k) (sym (ok-injective _ f' e));
  get_append = λ t f f' e.
      let (a, b) = appended t f f' e in
      (
        record { sources = read_text t; entries = read_text t },
        load_lem t,
        λ k.
            ap (lookup k) b
            ∙ lookup-append k (read_text t) _
            ∙ ap (or_else (lookup k (read_text t))) (lookup-append k f.sources f.entries),
        λ k. ap (lookup k) a ∙ lookup-append k (read_text t) f.sources,
      );
  get_tls = λ g e k. ap (lookup k) (loaded default_tls_text g e ∙ tls_text_read);
}
