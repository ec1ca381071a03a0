-- ===== src/Hash/Rehash.antt =====
-- Growth keeps the map: hash_grow of src/slp_value.c.
use slp.Hash.Insert.{at-set_self, at-set_other, write-IsTable}
use slp.Hash.Grow.{live_count, live_count-write, Reaches-within, place-Reaches}
use slp.Hash.Probe.{KeyLaws, Live, Reaches, IsTable, start}
use slp.Hash.Table.{HashEntry, is_null, at, home, place, rehash}
use slp.Hash.View.{lookup, lookup-write, lookup-cases}
use slp.Prelude.{
  ℕ, zero, suc, ◌+◌, ◌<◌, ◌≡◌, inl, inr, refl, sym, ap, subst, ◌∙◌, Bool, true, false, Option, some,
  none, List, [], ◌∷◌, if◌then◌else◌, length, set, length-set, arith, Bool-cases, ℕ-cases,
}
use slp.Value.{Value}

module _ (hash_value : Value → ℕ) (key_equals : Value → Value → Bool) where
  abbrev pub Unique : List HashEntry → Type 0
  Unique es =
      (i j : ℕ)
      → Live (at es i)
      → Live (at es j)
      → key_equals (at es i).key (at es j).key ≡ true
      → i ≡ j

  -- Entries that may be added to a table: keys, each once, and none of them in the table.
  pub record IsBatch (IsKey : Value → Type 0) (old es : List HashEntry) : Type 0 where
    pub keys : (i : ℕ) → Live (at old i) → IsKey (at old i).key
    pub unique : Unique old
    pub apart :
        (i j : ℕ)
        → Live (at old i)
        → Live (at es j)
        → key_equals (at es j).key (at old i).key ≡ false

  abbrev pub or_in : Option Value → Option Value → Option Value
  or_in (some v) o = some v
  or_in none o = o

  module _ {IsKey : Value → Type 0} (laws : KeyLaws hash_value key_equals IsKey) where
    pub IsBatch-tail :
        (e : HashEntry) (old es : List HashEntry)
        → IsBatch IsKey (e ∷ old) es
        → IsBatch IsKey old es
    IsBatch-tail e old es b = record {
      keys = λ i l. b.keys (suc i) l;
      unique = λ i j li lj s. let e' = b.unique (suc i) (suc j) li lj s in omega (arith, e');
      apart = λ i j li lj. b.apart (suc i) j li lj;
    }

    pub record Rehashes (old es es' : List HashEntry) : Type 0 where
      pub table : IsTable hash_value key_equals IsKey es'
      pub size : length es' ≡ length es
      pub total : live_count es' ≡ live_count es + live_count old
      pub same :
          (q : Value)
          → IsKey q
          → lookup hash_value key_equals es' q
            ≡ or_in (lookup hash_value key_equals old q) (lookup hash_value key_equals es q)

    -- One entry put in the table.
    module _ (e : HashEntry) (old es : List HashEntry) (live : Live e)
        (b : IsBatch IsKey (e ∷ old) es) (table : IsTable hash_value key_equals IsKey es)
        (room : live_count es < length es) where
      unfoldable pub spot : ℕ
      spot = place (length es) es (home hash_value es e.key)

      pub spot-Reaches :
          (is_null (at es spot).key ≡ true) × Reaches hash_value key_equals es e.key spot
      unfolding spot
      spot-Reaches =
          subst
            (λ x.
              (is_null (at es (place (length es) es x)).key ≡ true)
              × Reaches hash_value key_equals es e.key (place (length es) es x))
            (start hash_value key_equals es e.key)
            (place-Reaches hash_value key_equals (length es) es e.key 0 (omega arith) room
              (λ i h. absurd (omega (arith, h))))

      unfoldable pub put : List HashEntry
      put = set es spot e

      pub at-put : at put spot ≡ e
      unfolding put
      at-put =
          at-set_self es spot e (Reaches-within hash_value key_equals es e.key spot spot-Reaches.1)

      pub put-IsTable : IsTable hash_value key_equals IsKey put
      unfolding put
      put-IsTable =
          write-IsTable hash_value key_equals laws es table spot
            (Reaches-within hash_value key_equals es e.key spot spot-Reaches.1) e live
            (b.keys zero live) spot-Reaches.1 (λ i o l. b.apart zero i live l)

      pub put-IsBatch : IsBatch IsKey old put
      unfolding put
      put-IsBatch = record {
        keys = λ i l. b.keys (suc i) l;
        unique = (IsBatch-tail e old es b).unique;
        apart = λ i j li lj. elim (ℕ-cases j spot) [
          | inl s ↦ elim (Bool-cases (key_equals (at put j).key (at old i).key)) [
            | inr no_match ↦ no_match
            | inl match' ↦
                let at_j : at put j ≡ e = ap (at put) s ∙ at-put in
                let e' : key_equals e.key (at old i).key ≡ true =
                  ap (λ x. key_equals x.key (at old i).key) (sym at_j) ∙ match' in
                absurd (let z = b.unique zero (suc i) live li e' in omega (arith, z))
          ]
          | inr o ↦
              let at_j = at-set_other es spot e j o in
              ap (λ x. key_equals x.key (at old i).key) at_j
              ∙ b.apart (suc i) j li (subst Live at_j lj)
        ];
      }

      pub put-lookup :
          (q : Value)
          → IsKey q
          → lookup hash_value key_equals put q
            ≡ (if key_equals e.key q then some e.value else lookup hash_value key_equals es q)
      unfolding put
      put-lookup q kq =
          let n = spot-Reaches.0 in
          let w =
            lookup-write hash_value key_equals laws es put spot e.key table put-IsTable
              (b.keys zero live) (λ i o. at-set_other es spot e i o)
              (λ l. absurd (ground (arith, n, l)))
              (λ l.
                ap (λ x. key_equals x.key e.key) at-put ∙ laws.equal_refl e.key (b.keys zero live))
              q kq (subst Live (sym at-put) live) in
          w
          ∙ ap (λ x. if key_equals e.key q then some x.value else lookup hash_value key_equals es q)
              at-put

    lookup-unused :
        (e : HashEntry) (es : List HashEntry) (q : Value)
        → is_null e.key ≡ true
        → lookup hash_value key_equals (e ∷ es) q ≡ lookup hash_value key_equals es q
    unfolding lookup
    lookup-unused e es q n = rw n

    lookup-Live :
        (e : HashEntry) (es : List HashEntry) (q : Value)
        → Live e
        → lookup hash_value key_equals (e ∷ es) q
          ≡ (if key_equals e.key q then some e.value else lookup hash_value key_equals es q)
    unfolding lookup
    lookup-Live e es q l = rw l

    rehash-unused :
        (e : HashEntry) (old es : List HashEntry)
        → is_null e.key ≡ true
        → rehash hash_value (e ∷ old) es ≡ rehash hash_value old es
    unfolding rehash
    rehash-unused e old es n = rw n

    skipped-Rehashes :
        (e : HashEntry) (old es es' : List HashEntry)
        → is_null e.key ≡ true
        → Rehashes old es es'
        → Rehashes (e ∷ old) es es'
    unfolding live_count
    skipped-Rehashes e old es es' n r = record {
      table = r.table;
      size = r.size;
      total = ground (arith, n, r.total);
      same = λ q kq.
          r.same q kq
          ∙ ap (λ o. or_in o (lookup hash_value key_equals es q)) (sym (lookup-unused e old q n));
    }

    module _ (e : HashEntry) (old es : List HashEntry) (live : Live e)
        (b : IsBatch IsKey (e ∷ old) es) (table : IsTable hash_value key_equals IsKey es)
        (room : live_count es < length es) where
      rehash-put :
          rehash hash_value (e ∷ old) es ≡ rehash hash_value old (put e old es live b table room)
      unfolding rehash put spot
      rehash-put = rw live

      live_count-put : live_count (put e old es live b table room) ≡ live_count es + 1
      unfolding put
      live_count-put =
          let r = spot-Reaches e old es live b table room in
          live_count-write es _ e (Reaches-within hash_value key_equals es e.key _ r.1) r.0 live

      length-put : length (put e old es live b table room) ≡ length es
      unfolding put
      length-put = length-set es _ e

      -- The entry's key is not among those that follow.
      not_later :
          (q : Value)
          → IsKey q
          → key_equals e.key q ≡ true
          → lookup hash_value key_equals old q ≡ none
      not_later q kq s = elim (lookup-cases hash_value key_equals old q) [
        | inl (n, a) ↦ n
        | inr (i, l, s', v) ↦
            let key = b.keys zero live in
            let key_i = b.keys (suc i) l in
            let same = laws.equal_trans e.key q _ key kq key_i s (laws.equal_sym _ q key_i kq s') in
            let z = b.unique zero (suc i) live l same in absurd (omega (arith, z))
      ]

      put-or_in :
          (q : Value)
          → IsKey q
          → or_in
              (lookup hash_value key_equals old q)
              (lookup hash_value key_equals (put e old es live b table room) q)
            ≡ or_in (lookup hash_value key_equals (e ∷ old) q) (lookup hash_value key_equals es q)
      put-or_in q kq = elim (Bool-cases (key_equals e.key q)) [
        | inl s ↦
            rw
              (
                not_later q kq s,
                put-lookup e old es live b table room q kq,
                lookup-Live e old q live,
                s,
              )
              refl
        | inr d ↦ rw (put-lookup e old es live b table room q kq, lookup-Live e old q live, d) refl
      ]

      put-Rehashes :
          (es' : List HashEntry)
          → Rehashes old (put e old es live b table room) es'
          → Rehashes (e ∷ old) es es'
      unfolding live_count
      put-Rehashes es' r = record {
        table = r.table;
        size = r.size ∙ length-put;
        total = ground (arith, live, r.total, live_count-put);
        same = λ q kq. r.same q kq ∙ put-or_in q kq;
      }

    live_count-cons :
        (e : HashEntry) (old : List HashEntry)
        → live_count (e ∷ old) ≡ (if is_null e.key then 0 else 1) + live_count old
    unfolding live_count
    live_count-cons e old = refl

    pub rehash-Rehashes :
        (old es : List HashEntry)
        → IsBatch IsKey old es
        → IsTable hash_value key_equals IsKey es
        → live_count es + live_count old < length es
        → Rehashes old es (rehash hash_value old es)
    rehash-Rehashes [] es b t room =
        unfold rehash live_count lookup in
        record { table = t; size = refl; total = omega arith; same = λ q kq. refl }
    rehash-Rehashes (e ∷ old) es b t room = elim (Bool-cases (is_null e.key)) [
      | inl n ↦
          let fewer : live_count es + live_count old < length es =
            ground (arith, n, live_count-cons e old) in
          rw (rehash-unused e old es n) (
            skipped-Rehashes e old es _ n
              (rehash-Rehashes old es (IsBatch-tail e old es b) t fewer))
      | inr live ↦
          let fewer : live_count es < length es = ground (arith, live, live_count-cons e old) in
          let more = live_count-put e old es live b t fewer in
          let size = length-put e old es live b t fewer in
          let room' : live_count (put e old es live b t fewer) + live_count old
              < length (put e old es live b t fewer) =
            ground (arith, live, live_count-cons e old, more, size) in
          rw (rehash-put e old es live b t fewer) (
            put-Rehashes e old es live b t fewer _ (
              rehash-Rehashes old (put e old es live b t fewer)
                (put-IsBatch e old es live b t fewer) (put-IsTable e old es live b t fewer) room'))
    ]
