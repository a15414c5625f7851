-- ===== src/Sql/Classify/Greatest.antt =====
-- The class of a text of several statements (src/carve/core/sql/classify.py).
use carve.Common.{
  ◌≤◌, String, List, [], ◌∷◌, ◌≡◌, ◌↔◌, refl, sym, ◌∙◌, ap, arith, Option, ◌⊎◌, inl, inr,
  Bool-cases, leb,
}
use carve.Common.Result.{ok, Fallible-cases}
use carve.Sql.Dialects.{normalize_dialect}
use carve.Sql.Classify.{
  StatementKind, privilege, Statement, classify_one, statements_of, greater, greatest, greatest_of,
  Parser, classify,
}

pub data Among : Statement → List Statement → Type 0 where
  here : {s : Statement} {rest : List Statement} → Among s (s ∷ rest)
  there : {s t : Statement} {rest : List Statement} → Among s rest → Among s (t ∷ rest)

-- A class that some statement has and no statement exceeds.
pub record IsGreatest (kind : StatementKind) (statements : List Statement) : Type 0 where
  pub reached : (s : Statement) × Among s statements × (classify_one s ≡ kind)
  pub bound : (s : Statement) → Among s statements → privilege (classify_one s) ≤ privilege kind

privilege-injective : (a b : StatementKind) → privilege a ≡ privilege b → a ≡ b
privilege-injective a b h = ground arith

greatest-over :
    (best : StatementKind) (rest : List Statement) → privilege best ≤ privilege (greatest best rest)
unfolding greatest
greatest-over best [] = omega arith
greatest-over best (s ∷ rest) = ground (arith, greatest-over (greater best (classify_one s)) rest)

greatest-bound :
    (best : StatementKind) (rest : List Statement) (s : Statement)
    → Among s rest
    → privilege (classify_one s) ≤ privilege (greatest best rest)
unfolding greatest
greatest-bound best [] s m = elim m [ ]
greatest-bound best (t ∷ rest) _ here =
    ground (arith, greatest-over (greater best (classify_one t)) rest)
greatest-bound best (t ∷ rest) s (there m) = greatest-bound (greater best (classify_one t)) rest s m

greater-either : (a b : StatementKind) → (greater a b ≡ a) ⊎ (greater a b ≡ b)
greater-either a b = elim (Bool-cases (leb (privilege b) (privilege a))) [
  | inl fits ↦ rw fits (inl refl)
  | inr over ↦ rw over (inr refl)
]

greatest-reached :
    (best : StatementKind) (rest : List Statement)
    → (greatest best rest ≡ best)
      ⊎ ((s : Statement) × Among s rest × (classify_one s ≡ greatest best rest))
unfolding greatest
greatest-reached best [] = inl refl
greatest-reached best (t ∷ rest) = elim (greatest-reached (greater best (classify_one t)) rest) [
  | inl e ↦ elim (greater-either best (classify_one t)) [
    | inl same ↦ inl (e ∙ same)
    | inr new ↦ inr (t, here, sym (e ∙ new))
  ]
  | inr (s, m, e) ↦ inr (s, there m, e)
]

IsGreatest-unique :
    {a b : StatementKind} {statements : List Statement}
    → IsGreatest a statements
    → IsGreatest b statements
    → a ≡ b
IsGreatest-unique {a} {b} p q =
    let (s, m, e) = p.reached in
    let (t, k, f) = q.reached in privilege-injective a b (ground (arith, p.bound t k, q.bound s m))

greatest-under :
    (s : Statement) (rest : List Statement) (t : Statement)
    → Among t (s ∷ rest)
    → privilege (classify_one t) ≤ privilege (greatest (classify_one s) rest)
greatest-under s rest _ here = greatest-over (classify_one s) rest
greatest-under s rest t (there m) = greatest-bound (classify_one s) rest t m

greatest-IsGreatest :
    (s : Statement) (rest : List Statement) → IsGreatest (greatest (classify_one s) rest) (s ∷ rest)
greatest-IsGreatest s rest = record {
  reached = elim (greatest-reached (classify_one s) rest) [
    | inl e ↦ (s, here, sym e)
    | inr (t, m, e) ↦ (t, there m, e)
  ];
  bound = greatest-under s rest;
}

greatest_of-greatest :
    (statements : List Statement) (kind : StatementKind)
    → (greatest_of statements ≡ ok kind) ↔ IsGreatest kind statements
unfolding greatest_of
greatest_of-greatest [] kind = (λ e. absurd (cc), λ g. let (s, m, e) = g.reached in elim m [ ])
greatest_of-greatest (s ∷ rest) kind = (
  λ e.
      let same : greatest (classify_one s) rest ≡ kind = cc in
      rw same at (greatest-IsGreatest s rest),
  λ g. ap ok (IsGreatest-unique (greatest-IsGreatest s rest) g),
)

-- What `classify` returns: the dialect is known, the parser accepts the text and `kind` is the
-- greatest class among its statements.
pub record Classified (parse : Parser) (sql dialect : String) (kind : StatementKind) : Type 0 where
  pub name : String
  pub parsed : List (Option Statement)
  pub named : normalize_dialect dialect ≡ ok name
  pub parses : parse sql name ≡ ok parsed
  pub greatest : IsGreatest kind (statements_of parsed)

module _ (parse : Parser) where
  Classified-of :
      (sql dialect : String) (kind : StatementKind)
      → classify parse sql dialect ≡ ok kind
      → Classified parse sql dialect kind
  unfolding classify
  Classified-of sql dialect kind h = elim (Fallible-cases (normalize_dialect dialect)) [
    | inl (e, p) ↦ absurd (cc (rw (p, classify) at h))
    | inr (name, p) ↦ elim (Fallible-cases (parse sql name)) [
      | inl (e, q) ↦ absurd (cc (rw (p, q, classify) at h))
      | inr (parsed, q) ↦ record {
        name = name;
        parsed = parsed;
        named = p;
        parses = q;
        greatest = (greatest_of-greatest (statements_of parsed) kind).0 (rw (p, q, classify) at h);
      }
    ]
  ]

  classify_of :
      (sql dialect : String) (kind : StatementKind)
      → Classified parse sql dialect kind
      → classify parse sql dialect ≡ ok kind
  unfolding classify
  classify_of sql dialect kind c =
      rw (c.named, classify)
        (rw (c.parses, classify)
          ((greatest_of-greatest (statements_of c.parsed) kind).1 c.greatest))

  -- `classify` returns a class exactly when the dialect is known, the parser accepts the text, there
  -- is a statement, and the class is the greatest one among the statements, trailing comments left
  -- out.
  pub classify-greatest :
      (sql dialect : String) (kind : StatementKind)
      → (classify parse sql dialect ≡ ok kind) ↔ Classified parse sql dialect kind
  classify-greatest sql dialect kind =
      (Classified-of sql dialect kind, classify_of sql dialect kind)
