-- ===== src/Tests/Toys.antt =====
-- Concrete stand-ins for the parameters: a codec whose texts are the values themselves, and a Redis
-- that is a function from keys to what they hold.
use Prim.Native.String.append
use agentic_crew.Prelude.{
  ℕ, String, Bool, true, false, none, List, [], ◌∷◌, ◌++◌, map, Dict, lookup, insert, erase,
  contains, show_nat, arith, ◌==◌, ◌<>◌, eq_refl, ◌≡◌, ◌≢◌, refl, ap, ◌∙◌, if◌then◌else◌,
}
use agentic_crew.Prelude.Numerals.{read_digits, read_digits-append, read_digits-show_nat}
use agentic_crew.Exec.{Exec, ok}
use agentic_crew.Project.{is_empty}
use agentic_crew.Contract.Value.{ℤ, negsuc, Value}
use agentic_crew.Wire.{Codec, IsCodec, aware}
use agentic_crew.Store.Redis.Client.{
  Redis, IsRedis, Slot, absent, text, items, scores, Command, rpush, ltrim, list_slot, index_slot,
  text_in, from_start,
}

abbrev pub toy_codec : Codec
toy_codec = record {
  Text = Value;
  dumps = λ v. v;
  loads = λ v. ok v;
  is_blank = λ v. false;
  isoformat = λ t. "0" <> show_nat t;
  fromisoformat = λ s. ok (aware (read_digits 0 s));
}

zero_text : (s : String) → is_empty ("0" <> s) ≡ false
unfolding is_empty
zero_text s = ap is_empty (append.cons "0" String.[] s)

pub toy_codec-IsCodec : IsCodec toy_codec
unfolding read_digits
toy_codec-IsCodec = record {
  loads-dumps = λ v. refl;
  loads_raises = λ v e h. cc;
  is_blank-dumps = λ v. refl;
  fromisoformat-isoformat =
      λ t. ap (λ n. ok (aware n)) (read_digits-append 0 "0" (show_nat t) ∙ read_digits-show_nat t);
  is_empty-isoformat = λ t. zero_text (show_nat t);
}

abbrev Keys : Type 0
Keys = String → Slot Value

abbrev put : String → Slot Value → Keys → Keys
put k slot s j = if k == j then slot else s j

abbrev set_if_absent : Slot Value → String → Value → Exec Keys Bool
set_if_absent absent k t s = (ok true, put k (text t) s)
set_if_absent (text _) k t s = (ok false, s)
set_if_absent (items _) k t s = (ok false, s)
set_if_absent (scores _) k t s = (ok false, s)

abbrev set_if_taken : Slot Value → String → Value → Exec Keys Bool
set_if_taken absent k t s = (ok false, s)
set_if_taken (text _) k t s = (ok true, put k (text t) s)
set_if_taken (items _) k t s = (ok true, put k (text t) s)
set_if_taken (scores _) k t s = (ok true, put k (text t) s)

abbrev members_in : Slot Value → Dict ℕ
members_in (scores zs) = zs
members_in _ = []

abbrev items_in : Slot Value → List Value
items_in (items xs) = xs
items_in _ = []

abbrev names_of : Dict ℕ → List String
names_of [] = []
names_of ((k, n) ∷ zs) = k ∷ names_of zs

abbrev obey : Command Value → Keys → Keys
obey (rpush k t) s = put k (list_slot (items_in (s k) ++ t ∷ [])) s
obey (ltrim k start stop) s = put k (list_slot (from_start start (items_in (s k)))) s

abbrev obey_all : List (Command Value) → Keys → Keys
obey_all [] s = s
obey_all (cmd ∷ cmds) s = obey_all cmds (obey cmd s)

abbrev pub toy_redis : Redis Value
toy_redis = record {
  State = Keys;
  set_nx = λ k t s. set_if_absent (s k) k t s;
  set_xx = λ k t s. set_if_taken (s k) k t s;
  get = λ k s. (ok (text_in (s k)), s);
  mget = λ ks s. (ok (map (λ k. text_in (s k)) ks), s);
  zadd = λ k member score s. (ok tt, put k (index_slot (insert member score (members_in (s k)))) s);
  zrem = λ k member s. (ok tt, put k (index_slot (erase member (members_in (s k)))) s);
  zrevrange = λ k start stop s. (ok (names_of (members_in (s k))), s);
  execute = λ commands s. (ok tt, obey_all commands s);
  lrange = λ k start stop s. (ok (from_start start (items_in (s k))), s);
}

members_in-index_slot : (zs : Dict ℕ) → members_in (index_slot zs) ≡ zs
members_in-index_slot [] = refl
members_in-index_slot (z ∷ zs) = refl

items_in-list_slot : (xs : List Value) → items_in (list_slot xs) ≡ xs
items_in-list_slot [] = refl
items_in-list_slot (x ∷ xs) = refl

set_absent_lem :
    (slot : Slot Value) (k : String) (t : Value) (s : Keys)
    → slot ≢ absent
    → (set_if_absent slot k t s ≡ (ok false, s))
      × (set_if_taken slot k t s ≡ (ok true, put k (text t) s))
set_absent_lem absent k t s h = absurd (h refl)
set_absent_lem (text _) k t s h = (refl, refl)
set_absent_lem (items _) k t s h = (refl, refl)
set_absent_lem (scores _) k t s h = (refl, refl)

names_sound : (zs : Dict ℕ) (j : String) → contains j (names_of zs) ≡ true → lookup j zs ≢ none
unfolding contains lookup
names_sound [] j h g = cc
names_sound ((k, n) ∷ zs) j h g = ground (arith, names_sound zs j)

names_complete : (zs : Dict ℕ) (j : String) → lookup j zs ≢ none → contains j (names_of zs) ≡ true
unfolding contains lookup
names_complete [] j h = absurd (h refl)
names_complete ((k, n) ∷ zs) j h = ground (arith, names_complete zs j)

put_twice :
    (k j : String) (a b : Slot Value) (s : Keys)
    → put k a (put k b s) j ≡ (if k == j then a else s j)
put_twice k j a b s = ground arith

push_trim :
    (s : Keys) (k : String) (t : Value) (start : ℤ) (xs : List Value)
    → s k ≡ list_slot xs
    → (j : String)
    → obey_all (rpush k t ∷ ltrim k start (negsuc 0) ∷ []) s j
      ≡ (if k == j then list_slot (from_start start (xs ++ t ∷ [])) else s j)
push_trim s k t start xs h j =
    let there : items_in (put k (list_slot (items_in (s k) ++ t ∷ [])) s k) ≡ xs ++ t ∷ [] =
      ap (λ (b : Bool). items_in (if b then list_slot (items_in (s k) ++ t ∷ []) else s k))
        (eq_refl k)
      ∙ items_in-list_slot (items_in (s k) ++ t ∷ [])
      ∙ ap (λ ys. ys ++ t ∷ []) (ap items_in h ∙ items_in-list_slot xs) in
    put_twice k j _ _ s ∙ ap (λ ys. if k == j then list_slot (from_start start ys) else s j) there

pub toy_redis-IsRedis : IsRedis toy_redis
toy_redis-IsRedis = record {
  at = λ s k. s k;
  set_nx_absent = λ s k t h. (put k (text t) s, ap (λ slot. set_if_absent slot k t s) h, λ j. refl);
  set_nx_taken = λ s k t h. (set_absent_lem (s k) k t s h).0;
  set_xx_absent = λ s k t h. ap (λ slot. set_if_taken slot k t s) h;
  set_xx_taken = λ s k t h. (put k (text t) s, (set_absent_lem (s k) k t s h).1, λ j. refl);
  get_absent = λ s k h. ap (λ slot. (ok (text_in slot), s)) h;
  get_text = λ s k t h. ap (λ slot. (ok (text_in slot), s)) h;
  mget_lem = λ s ks. refl;
  zadd_lem = λ s k member score zs h. (
    _,
    refl,
    λ j.
        ap (λ ms. if k == j then index_slot (insert member score ms) else s j)
          (ap members_in h ∙ members_in-index_slot zs),
  );
  zrem_lem = λ s k member zs h. (
    _,
    refl,
    λ j.
        ap (λ ms. if k == j then index_slot (erase member ms) else s j)
          (ap members_in h ∙ members_in-index_slot zs),
  );
  zrevrange_lem = λ s k zs h. (
    names_of zs,
    ap (λ ms. (ok (names_of ms), s)) (ap members_in h ∙ members_in-index_slot zs),
    names_sound zs,
    names_complete zs,
  );
  execute_push_trim = λ s k t start xs h. (_, refl, push_trim s k t start xs h);
  lrange_lem = λ s k start xs h.
      ap (λ ys. (ok (from_start start ys), s)) (ap items_in h ∙ items_in-list_slot xs);
}

pub at-toy_redis : (s : String → Slot Value) (k : String) → toy_redis-IsRedis.at s k ≡ s k
unfolding toy_redis-IsRedis
at-toy_redis s k = refl
