-- ===== src/Protocol/Roundtrip.antt =====
-- The parsers of src/stratum/protocol.rs against the values that encode their results.
use csd_mining_pool_public.Prelude.{
  ℕ, suc, ◌==◌, ==_iff, ◌≡◌, refl, ap, ap₂, sym, ◌∙◌, ◌↔◌, List, [], ◌∷◌, map, Agree-ext, some,
  Text, length, get_elem?,
}
use csd_mining_pool_public.Prelude.Results.{
  Result, ok, ◌>>=◌, bind_ok, ok_or, ok_or_ok, ok_inj, guard_ok,
}
use csd_mining_pool_public.Protocol.{
  Value, null, bool, number, string, array, object, Values, nil, cons, as_str, as_bool, as_array,
  to_list, of_list, NotifyParams, ParseError, field_not_string, merkle_branch_not_string,
  merkle_not_array, clean_jobs_not_bool, not_an_array, wrong_arity, str_at, strings,
  parse_notify_fields, parse_notify,
}

-- The 9-tuple of the frame.
abbrev notify_list : NotifyParams → List Value
notify_list p =
    string p.job_id
    ∷ string p.prev_hash_be_hex
    ∷ string p.coinb1_hex
    ∷ string p.coinb2_hex
    ∷ array (of_list (map string p.merkle_branches_hex))
    ∷ string p.version_hex
    ∷ string p.nbits_hex
    ∷ string p.ntime_hex
    ∷ bool p.clean_jobs
    ∷ []

unfoldable pub notify_value : NotifyParams → Value
notify_value p = array (of_list (notify_list p))

as_str-some : (v : Value) (s : Text) → as_str v ≡ some s → v ≡ string s
as_str-some (string t) s h = cc
as_str-some null s h = absurd cc
as_str-some (bool b) s h = absurd cc
as_str-some (number f n) s h = absurd cc
as_str-some (array vs) s h = absurd cc
as_str-some (object m) s h = absurd cc

as_bool-some : (v : Value) (b : _) → as_bool v ≡ some b → v ≡ bool b
as_bool-some (bool c) b h = cc
as_bool-some null b h = absurd cc
as_bool-some (string s) b h = absurd cc
as_bool-some (number f n) b h = absurd cc
as_bool-some (array vs) b h = absurd cc
as_bool-some (object m) b h = absurd cc

of_list-to_list : (vs : Values) → of_list (to_list vs) ≡ vs
of_list-to_list nil = refl
of_list-to_list (cons v vs) = ap (cons v) (of_list-to_list vs)

pub to_list-of_list : (vs : List Value) → to_list (of_list vs) ≡ vs
to_list-of_list [] = refl
to_list-of_list (v ∷ vs) = ap (◌∷◌ v) (to_list-of_list vs)

pub as_array-some : (v : Value) (vs : List Value) → as_array v ≡ some vs → v ≡ array (of_list vs)
as_array-some (array us) vs h =
    let e : to_list us ≡ vs = cc in ap array (sym (of_list-to_list us) ∙ ap of_list e)
as_array-some null b h = absurd cc
as_array-some (string s) b h = absurd cc
as_array-some (number f n) b h = absurd cc
as_array-some (bool c) vs h = absurd cc
as_array-some (object m) b h = absurd cc

-- A string read at an index stands there.
pub str_at_ok :
    (arr : List Value) (i : ℕ) (s : Text) → str_at arr i ≡ ok s → get_elem? arr i ≡ some (string s)
unfolding str_at
str_at_ok arr i s h =
    let (v, at, rest) = bind_ok (ok_or (get_elem? arr i) (field_not_string i)) h in
    ok_or_ok (get_elem? arr i) (field_not_string i) at
    ∙ ap some (as_str-some v s (ok_or_ok (as_str v) (field_not_string i) rest))

strings-map : (ss : List Text) (i : ℕ) → strings i (map string ss) ≡ ok ss
unfolding strings
strings-map [] i = refl
strings-map (s ∷ ss) i = rw (strings-map ss (suc i))

strings_ok : (vs : List Value) (i : ℕ) (ss : List Text) → strings i vs ≡ ok ss → vs ≡ map string ss
unfolding strings
strings_ok [] i ss h = let e : [] ≡ ss = cc in ap (map string) e
strings_ok (v ∷ vs) i ss h =
    let (s, at, more) = bind_ok (ok_or (as_str v) (merkle_branch_not_string i)) h in
    let (rest, tail, last) = bind_ok (strings (suc i) vs) more in
    let e : s ∷ rest ≡ ss = cc in
    ap₂ ◌∷◌ (as_str-some v s (ok_or_ok (as_str v) (merkle_branch_not_string i) at))
      (strings_ok vs (suc i) rest tail)
    ∙ ap (map string) e

parse_notify-notify_value : (p : NotifyParams) → parse_notify (notify_value p) ≡ ok p
unfolding parse_notify parse_notify_fields str_at notify_value
parse_notify-notify_value p = rw (to_list-of_list, strings-map)

-- What is left of `parse_notify_fields` after the merkle branches.
abbrev last_fields :
    List Value → Text → Text → Text → Text → List Text → Result ParseError NotifyParams
last_fields arr job prev one two merkle = do
  version ← str_at arr 5
  bits ← str_at arr 6
  time ← str_at arr 7
  clean ← ok_or (get_elem? arr 8) clean_jobs_not_bool
  flag ← ok_or (as_bool clean) clean_jobs_not_bool
  ok (record {
    job_id = job;
    prev_hash_be_hex = prev;
    coinb1_hex = one;
    coinb2_hex = two;
    merkle_branches_hex = merkle;
    version_hex = version;
    nbits_hex = bits;
    ntime_hex = time;
    clean_jobs = flag;
  })

-- The first five elements, read.
record FirstFields (arr : List Value) (p : NotifyParams) : Type 0 where
  job : Text
  prev : Text
  one : Text
  two : Text
  merkle : List Text
  at_0 : get_elem? arr 0 ≡ some (string job)
  at_1 : get_elem? arr 1 ≡ some (string prev)
  at_2 : get_elem? arr 2 ≡ some (string one)
  at_3 : get_elem? arr 3 ≡ some (string two)
  at_4 : get_elem? arr 4 ≡ some (array (of_list (map string merkle)))
  last : last_fields arr job prev one two merkle ≡ ok p

FirstFields-ok :
    (arr : List Value) (p : NotifyParams) → parse_notify_fields arr ≡ ok p → FirstFields arr p
unfolding parse_notify_fields
FirstFields-ok arr p h =
    let (job, at0, h) = bind_ok (str_at arr 0) h in
    let (prev, at1, h) = bind_ok (str_at arr 1) h in
    let (one, at2, h) = bind_ok (str_at arr 2) h in
    let (two, at3, h) = bind_ok (str_at arr 3) h in
    let (branches, at4, h) = bind_ok (ok_or (get_elem? arr 4) merkle_not_array) h in
    let (values, as4, h) = bind_ok (ok_or (as_array branches) merkle_not_array) h in
    let (merkle, strings4, h) = bind_ok (strings 0 values) h in
    record {
      job = job;
      prev = prev;
      one = one;
      two = two;
      merkle = merkle;
      at_0 = str_at_ok arr 0 job at0;
      at_1 = str_at_ok arr 1 prev at1;
      at_2 = str_at_ok arr 2 one at2;
      at_3 = str_at_ok arr 3 two at3;
      at_4 =
          ok_or_ok (get_elem? arr 4) merkle_not_array at4
          ∙ ap some (branches_ok branches values merkle as4 strings4);
      last = h;
    }
  where
    branches_ok :
        (v : Value) (values : List Value) (merkle : List Text)
        → ok_or (as_array v) merkle_not_array ≡ ok values
        → strings 0 values ≡ ok merkle
        → v ≡ array (of_list (map string merkle))
    branches_ok v values merkle is_array each =
        as_array-some v values (ok_or_ok (as_array v) merkle_not_array is_array)
        ∙ ap (λ vs. array (of_list vs)) (strings_ok values 0 merkle each)

parse_notify_fields_ok :
    (arr : List Value) (p : NotifyParams) → length arr ≡ 9 → FirstFields arr p → arr ≡ notify_list p
parse_notify_fields_ok arr p nine first =
    let (version, at5, h) = bind_ok (str_at arr 5) first.last in
    let (bits, at6, h) = bind_ok (str_at arr 6) h in
    let (time, at7, h) = bind_ok (str_at arr 7) h in
    let (clean, at8, h) = bind_ok (ok_or (get_elem? arr 8) clean_jobs_not_bool) h in
    let (flag, as8, h) = bind_ok (ok_or (as_bool clean) clean_jobs_not_bool) h in
    Agree-ext arr _ nine (
      first.at_0,
      (
        first.at_1,
        (
          first.at_2,
          (
            first.at_3,
            (
              first.at_4,
              (
                str_at_ok arr 5 version at5,
                (
                  str_at_ok arr 6 bits at6,
                  (
                    str_at_ok arr 7 time at7,
                    (
                      ok_or_ok (get_elem? arr 8) clean_jobs_not_bool at8
                          ∙ ap some (
                              as_bool-some clean flag
                                (ok_or_ok (as_bool clean) clean_jobs_not_bool as8)),
                      tt,
                    ),
                  ),
                ),
              ),
            ),
          ),
        ),
      ),
    )
    ∙ ap notify_list (ok_inj h)

parse_notify-only : (v : Value) (p : NotifyParams) → parse_notify v ≡ ok p → v ≡ notify_value p
unfolding parse_notify notify_value
parse_notify-only v p h =
    let (arr, is_array, h) = bind_ok (ok_or (as_array v) not_an_array) h in
    let (nine, fields) = guard_ok (length arr == 9) (wrong_arity (length arr)) h in
    as_array-some v arr (ok_or_ok (as_array v) not_an_array is_array)
    ∙ ap (λ t. array (of_list t))
        (parse_notify_fields_ok arr p ((==_iff (length arr) 9).0 nine)
          (FirstFields-ok arr p fields))

-- The parser of notify parameters gives a result exactly for the 9-tuple that encodes it.
pub parse_notify_iff :
    (v : Value) (p : NotifyParams) → (parse_notify v ≡ ok p) ↔ (v ≡ notify_value p)
parse_notify_iff v p =
    (parse_notify-only v p, (λ e. ap parse_notify e ∙ parse_notify-notify_value p))
