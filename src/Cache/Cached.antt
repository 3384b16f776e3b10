-- ===== src/Cache/Cached.antt =====
-- `Lookup` in a file that `writeBinaryCache` wrote gives the summary of the ticket file.
use agent_task.Prelude.{
  ℕ, ◌≤◌, ◌≡◌, refl, sym, ap, ◌∙◌, true, false, not, some, List, [], ◌∷◌, length, inl, inr,
  Bool-cases, arith, subst, All,
}
use agent_task.Result.{ok, >>=-eq-ok}
use agent_task.Text.{Bytes, Lacks, equal, ℤ, pos}
use agent_task.Ticket.{Summary, is_valid_status}
use agent_task.Cache.{
  RawCacheEntry, cache_entry, encode_summary_data, summary_data, priority_to_uint8,
  status_string_to_byte, type_string_to_byte, read_data_entry,
}
use agent_task.Cache.File.{CacheEntry, load_binary_cache, lookup, BinaryCache}
use agent_task.Cache.Writer.{
  magnitude, find_entry, find_file, to_raw_entries, write_binary_cache, names_fit,
}
use agent_task.Cache.RoundTrip.{went_on, encode-IsStorable, read_data_entry-cache_entry}
use agent_task.Cache.Sorted.{IsDistinct}
use agent_task.Cache.Lookup.{IsEntry, found, cache_with, lookup-write_raw}

-- A ticket file that was parsed, and its mtime.
pub record IsCacheable (filename : Bytes) (entry : CacheEntry) : Type 0 where
  pub plain_name : Lacks 0 filename
  pub until : magnitude entry.mtime ≤ 9223372036854775807
  pub status : is_valid_status entry.summary.status ≡ true
  pub version : ℕ
  pub is_version : entry.summary.schema_version ≡ pos version
  pub small : version ≤ 255

abbrev pub AllCacheable : List (Bytes × CacheEntry) → Type 0
AllCacheable [] = Unit
AllCacheable ((filename, entry) ∷ files) = IsCacheable filename entry × AllCacheable files

abbrev pub OtherNames : Bytes → List (Bytes × CacheEntry) → Type 0
OtherNames name [] = Unit
OtherNames name ((filename, entry) ∷ files) = (equal name filename ≡ false) × OtherNames name files

abbrev pub NamesDistinct : List (Bytes × CacheEntry) → Type 0
NamesDistinct [] = Unit
NamesDistinct ((filename, entry) ∷ files) = OtherNames filename files × NamesDistinct files

starts_with_version : (s : Summary) → 1 ≤ length (summary_data s)
unfolding summary_data
starts_with_version s = omega arith

made :
    (filename : Bytes) (mtime : ℤ) (s : Summary) (e : RawCacheEntry)
    → cache_entry filename mtime s ≡ ok e
    → (filename ≡ e.filename) × (mtime ≡ e.mtime) × (1 ≤ length e.bytes)
unfolding cache_entry
made filename mtime s e h =
    let (bytes, encoded, h1) = >>=-eq-ok (encode_summary_data s) _ h in
    let (n, fits, h2) = >>=-eq-ok (priority_to_uint8 s.priority) _ h1 in
    let (_, same) = encode-IsStorable s bytes encoded in
    let is : record {
      filename = filename;
      mtime = mtime;
      status = status_string_to_byte s.status;
      priority = n;
      ticket_type = type_string_to_byte s.ticket_type;
      parent = s.parent;
      bytes = bytes;
    }
        ≡ e =
      cc h2 in
    let filled : 1 ≤ length bytes = subst (λ b. 1 ≤ length b) same (starts_with_version s) in
    subst
      (λ (f : RawCacheEntry). (filename ≡ f.filename) × (mtime ≡ f.mtime) × (1 ≤ length f.bytes)) is
      (refl, refl, filled)

raw_entries-lem :
    (files : List (Bytes × CacheEntry)) (entries : List RawCacheEntry)
    → AllCacheable files
    → NamesDistinct files
    → to_raw_entries files ≡ ok entries
    → All IsEntry entries
      × IsDistinct entries
      × ((name : Bytes) → found (find_entry name entries) ≡ some (find_file name files))
      × ((name : Bytes) → OtherNames name files → All (λ e. equal name e.filename ≡ false) entries)
unfolding to_raw_entries find_entry find_file
raw_entries-lem [] [] h d made_of = (tt, tt, (λ name. refl), λ name o. tt)
raw_entries-lem [] (e ∷ entries) h d made_of = cc made_of
raw_entries-lem ((filename, entry) ∷ files) entries (k, h) (o, d) made_of =
    let (e, one, m1) = >>=-eq-ok (cache_entry filename entry.mtime entry.summary) _ made_of in
    let (rest, more, m2) = >>=-eq-ok (to_raw_entries files) _ m1 in
    let (ok_rest, distinct, finds, others) = raw_entries-lem files rest h d more in
    let (name_of, mtime_of, filled) = made filename entry.mtime entry.summary e one in
    let reads : read_data_entry e ≡ some entry.summary =
      read_data_entry-cache_entry filename entry.mtime entry.summary e k.version k.status
        k.is_version k.small one in
    let made_so : e ∷ rest ≡ entries = cc m2 in
    subst
      (λ es.
        All IsEntry es
        × IsDistinct es
        × ((name : Bytes)
            → found (find_entry name es) ≡ some (find_file name ((filename, entry) ∷ files)))
        × ((name : Bytes)
            → OtherNames name ((filename, entry) ∷ files)
            → All (λ f. equal name f.filename ≡ false) es))
      made_so
      (
        (
          record {
            plain_name = subst (Lacks 0) name_of k.plain_name;
            until = subst (λ m. magnitude m ≤ 9223372036854775807) mtime_of k.until;
            filled = filled;
          },
          ok_rest,
        ),
        (
          subst (λ n. All (λ f. equal n f.filename ≡ false) rest) name_of (others filename o),
          distinct,
        ),
        (λ name.
            (let match : equal name e.filename ≡ equal name filename =
                ap (equal name) (sym name_of) in
              elim (Bool-cases (equal name filename)) [
                | inl same ↦
                    rw (match, same, reads)
                      (λ i.
                        some (some (record { mtime = sym mtime_of i; summary = entry.summary })))
                | inr other ↦ rw (match, other) (finds name)
              ])),
        λ name (p, q). (subst (λ n. equal name n ≡ false) name_of p, others name q),
      )

-- In the file that is written for ticket files of valid tickets, no name twice, `Lookup` of any name
-- is what the map of the files holds under it, with the whole summary. The names hold no zero byte, the
-- mtimes are an int64, the versions fit a byte and the file is below 4 GiB.
pub lookup-write_binary_cache :
    (files : List (Bytes × CacheEntry)) (file : Bytes)
    → AllCacheable files
    → NamesDistinct files
    → write_binary_cache files ≡ ok file
    → length file ≤ 4294967295
    → (name : Bytes)
    → (c : BinaryCache) × (load_binary_cache (some file) ≡ ok c)
      × (lookup c name ≡ some (find_file name files))
unfolding write_binary_cache
lookup-write_binary_cache files file h d written small name =
    let (_, w1) = went_on (not (names_fit (λ f. f.0) files)) _ _ written in
    let (entries, raw, w2) = >>=-eq-ok (to_raw_entries files) _ w1 in
    let (k, distinct, finds, _) = raw_entries-lem files entries h d raw in
    let (loaded, looked) = lookup-write_raw entries file k w2 distinct small name in
    (cache_with file entries, loaded, looked ∙ finds name)
