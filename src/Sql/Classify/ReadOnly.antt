-- ===== src/Sql/Classify/ReadOnly.antt =====
-- What counts as a read for src/carve/core/sql/classify.py.
use carve.Common.{◌≤◌, String, true, false, Option, List, ◌≡◌, ◌↔◌, refl, inl, inr, ap, ◌∙◌, arith}
use carve.Common.Result.{ok, Fallible-cases}
use carve.Sql.Dialects.{normalize_dialect}
use carve.Sql.Classify.{
  StatementKind, read, privilege, is_read, Statement, is_read_type, classify_one, statements_of,
  Parser, classify, is_read_only,
}
use carve.Sql.Classify.Greatest.{Among, Classified, classify-greatest}

-- A query or a catalog read that writes no table by `INTO`.
pub record IsRead (s : Statement) : Type 0 where
  pub of_read_type : is_read_type s.node ≡ true
  pub no_into : s.has_into ≡ false

classify_one-IsRead : (s : Statement) → classify_one s ≡ read → IsRead s
unfolding classify_one
classify_one-IsRead s h = record { of_read_type = ground arith; no_into = ground arith }

IsRead-classify_one : (s : Statement) → IsRead s → classify_one s ≡ read
unfolding classify_one
IsRead-classify_one s r = ground (arith, r.of_read_type, r.no_into)

at_most_read : (kind : StatementKind) → privilege kind ≤ privilege read → kind ≡ read
at_most_read kind h = ground arith

-- The text parses in a known dialect to one statement or more, and each is a read.
pub record AllReads (parse : Parser) (sql dialect : String) : Type 0 where
  pub name : String
  pub parsed : List (Option Statement)
  pub named : normalize_dialect dialect ≡ ok name
  pub parses : parse sql name ≡ ok parsed
  pub some_statement : (s : Statement) × Among s (statements_of parsed)
  pub reads : (s : Statement) → Among s (statements_of parsed) → IsRead s

only_read : (kind : StatementKind) → is_read kind ≡ true → kind ≡ read
unfolding is_read
only_read kind h = ground arith

module _ (parse : Parser) (sql dialect : String) where
  classified_read : is_read_only parse sql dialect ≡ true → classify parse sql dialect ≡ ok read
  unfolding is_read_only
  classified_read h = elim (Fallible-cases (classify parse sql dialect)) [
    | inl (e, p) ↦ absurd (cc (rw (p, is_read_only) at h))
    | inr (kind, p) ↦ p ∙ ap ok (only_read kind (rw (p, is_read_only) at h))
  ]

  AllReads-of : Classified parse sql dialect read → AllReads parse sql dialect
  AllReads-of c = record {
    name = c.name;
    parsed = c.parsed;
    named = c.named;
    parses = c.parses;
    some_statement = let (s, m, e) = c.greatest.reached in (s, m);
    reads = λ s m. classify_one-IsRead s (at_most_read (classify_one s) (c.greatest.bound s m));
  }

  Classified-of_reads : AllReads parse sql dialect → Classified parse sql dialect read
  Classified-of_reads r = record {
    name = r.name;
    parsed = r.parsed;
    named = r.named;
    parses = r.parses;
    greatest = record {
      reached = let (s, m) = r.some_statement in (s, m, IsRead-classify_one s (r.reads s m));
      bound = λ s m. ground (arith, IsRead-classify_one s (r.reads s m));
    };
  }

  -- A text is read-only exactly when its dialect is known, it parses, it has a statement, and every
  -- statement is of a read type and materializes no table: what does not parse is never a read.
  pub is_read_only-AllReads : (is_read_only parse sql dialect ≡ true) ↔ AllReads parse sql dialect
  unfolding is_read_only is_read
  is_read_only-AllReads = (
    λ h. AllReads-of ((classify-greatest parse sql dialect read).0 (classified_read h)),
    λ r.
        rw ((classify-greatest parse sql dialect read).1 (Classified-of_reads r), is_read_only)
          refl,
  )
