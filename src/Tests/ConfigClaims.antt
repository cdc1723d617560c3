-- ===== src/Tests/ConfigClaims.antt =====
-- The theorems on configurations, at concrete inputs.
use mosfet_rs.Prelude.{
  ◌≡◌, refl, String, true, Option, none, some, [], ◌∷◌, Result, ok, err, str_eq, arith,
  if◌then◌else◌,
}
use mosfet_rs.Config.Yaml.{Value, other, mapping, Fields, end, field, Mapping, get}
use mosfet_rs.Config.{Files, merge, merge_values}
use mosfet_rs.Config.Sound.{Sound, Sound-DistinctTo}
use mosfet_rs.Config.Paths.{read, value_of, overlay, merge_values-read}
use mosfet_rs.Config.Twice.{seen, again, merge_values_twice}
use mosfet_rs.Config.Merge.{merge_only_reads}
use mosfet_rs.Tests.Ordered.{ordered}

data Word : Type 0 where
  null port host logs debug info : Word

Word-discrete : Discrete Word
Word-discrete = hlevel

abbrev words : Mapping Word
words = ordered Word-discrete

abbrev key : Word → Value Word
key x = other x

-- { host: null, logs: { port: debug } }
abbrev old_logs : Fields Word
old_logs = field (key port) (key debug) end

abbrev old_fields : Fields Word
old_fields = field (key host) (key null) (field (key logs) (mapping old_logs) end)

-- { logs: { host: info } }
abbrev new_logs : Fields Word
new_logs = field (key host) (key info) end

abbrev new_fields : Fields Word
new_fields = field (key logs) (mapping new_logs) end

old-Sound : Sound words (mapping old_fields)
unfolding get
old-Sound = ground arith

new-Sound : Sound words (mapping new_fields)
unfolding get
new-Sound = ground arith

merge_values-read_example :
    value_of words (
      read words
        (key logs ∷ key port ∷ [])
        (merge_values words (mapping old_fields) (mapping new_fields)))
    ≡ overlay words
        (value_of words (read words (key logs ∷ key port ∷ []) (mapping old_fields)))
        (read words (key logs ∷ key port ∷ []) (mapping new_fields))
merge_values-read_example =
    merge_values-read words (key logs ∷ key port ∷ []) (mapping old_fields) (mapping new_fields)
      old-Sound new-Sound

-- A directory with the two files' texts; the first may be missing.
record Disk : Type 0 where
  current : Option String

abbrev disk_files : Files Word
disk_files = record {
  World = Disk;
  IoError = Unit;
  YamlError = Unit;
  Handle = Unit;
  is_not_found = λ e. true;
  read_to_string = λ path d. (if str_eq path "new" then ok "logs" else stored d.current, d);
  create = λ path d. (ok tt, record d { current = some "" });
  write_all = λ h text d. (ok tt, record d { current = some text });
  from_str = λ text. ok (if str_eq text "" then other null else mapping new_fields);
}
  where
    stored : Option String → Result (Unit {0}) String
    stored (some text) = ok text
    stored none = err tt

abbrev running : Disk
running = record { current = some "host" }

merge_only_reads_example :
    (merge disk_files words "current" "new" tt running).2.current ≡ some "host"
merge_only_reads_example =
    merge_only_reads disk_files words "current" "new" running (λ d. d.current) (λ path d. refl)
      (λ e h. ground arith)

merge_values_twice_example :
    let once = merge_values words (mapping old_fields) (mapping new_fields) in
    let p = key logs ∷ key port ∷ [] in
    seen words (value_of words (read words p (merge_values words once (mapping new_fields))))
    ≡ again words
        (seen words (value_of words (read words p once)))
        (read words p (mapping new_fields))
merge_values_twice_example =
    merge_values_twice words (key logs ∷ key port ∷ []) (mapping old_fields) (mapping new_fields)
      (Sound-DistinctTo words 2 (mapping old_fields) old-Sound)
      (Sound-DistinctTo words 2 (mapping new_fields) new-Sound)
