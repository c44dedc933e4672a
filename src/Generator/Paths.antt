-- ===== src/Generator/Paths.antt =====
-- The configurations of a tree are its paths.
use mathlib.Core.List.{flat_map}
use optimer.Prelude.{
  List, [], ap, append-nil, append_assoc, arith, length, length-append, length-map, map, refl, sym,
  ℕ, ◌*◌, ◌++◌, ◌+◌, ◌∙◌, ◌∷◌, ◌≡◌,
}
use optimer.Text.{Text, codes}
use optimer.Generator.{
  Config, Node, Nodes, append, child, end, fold_values, process, process_childs, process_rest,
  property, section,
}

-- the lines of the configurations, from a node down
unfoldable mutual
  unfolding flat_map

  pub paths : Node → List (List Text)
  paths (section name childs) = map (λ p. (b'[' ∷ name ++ codes "]") ∷ p) (paths_below childs)
  paths (property name values childs) =
      let below = paths_below childs in
      flat_map (λ value. map (λ p. (name ++ b'=' ∷ value) ∷ p) below) values

  pub paths_below : Nodes → List (List Text)
  paths_below end = [] ∷ []
  paths_below (child c cs) = paths c ++ paths_rest cs

  pub paths_rest : Nodes → List (List Text)
  paths_rest end = []
  paths_rest (child c cs) = paths c ++ paths_rest cs

abbrev pub under : Config → List (List Text) → List Config
under config = map λ p. record { lines = config.lines ++ p }

under-append :
    (c : Config) (line : Text) (ps : List (List Text))
    → under (append c line) ps ≡ under c (map (λ p. line ∷ p) ps)
unfolding append
under-append c line [] = refl
under-append c line (p ∷ ps) = simp (append_assoc, under-append c line ps)

fold_values-flat_map :
    (f : Text → List Config → List Config) (g : Text → List Config)
    → ((v : Text) (l : List Config) → f v l ≡ l ++ g v)
    → (vs : List Text) (l : List Config) → fold_values f vs l ≡ l ++ flat_map g vs
unfolding fold_values flat_map
fold_values-flat_map f g h [] l = sym (append-nil l)
fold_values-flat_map f g h (v ∷ vs) l =
    rw h (fold_values-flat_map f g h vs (l ++ g v) ∙ append_assoc l (g v) (flat_map g vs))

under-append_list :
    (c : Config) (ps qs : List (List Text)) → under c (ps ++ qs) ≡ under c ps ++ under c qs
under-append_list c [] qs = refl
under-append_list c (p ∷ ps) qs =
    ap (λ (t : List Config). record { lines = c.lines ++ p } ∷ t) (under-append_list c ps qs)

under-flat_map :
    (c : Config) (g : Text → List (List Text)) (vs : List Text)
    → under c (flat_map g vs) ≡ flat_map (λ v. under c (g v)) vs
unfolding flat_map
under-flat_map c g [] = refl
under-flat_map c g (v ∷ vs) =
    rw under-append_list (ap (λ (t : List Config). under c (g v) ++ t) (under-flat_map c g vs))

under-nil : (c : Config) → under c ([] ∷ []) ≡ c ∷ []
under-nil c = rw append-nil

process_property :
    (name : Text) (values : List Text) (childs : Nodes) (c : Config) (l : List Config)
    → ((c : Config) (l : List Config)
        → process_childs childs c l ≡ l ++ under c (paths_below childs))
    → process (property name values childs) c l ≡ l ++ under c (paths (property name values childs))
unfolding process paths
process_property name values childs c l h =
    let line = λ (v : Text). name ++ b'=' ∷ v in
    rw under-flat_map (
      fold_values-flat_map _ _
        (λ v m.
          h (append c (line v)) m
          ∙ ap (λ (t : List Config). m ++ t) (under-append c (line v) (paths_below childs)))
        values l)

mutual
  unfolding process paths

  process-under : (n : Node) (c : Config) (l : List Config) → process n c l ≡ l ++ under c (paths n)
  process-under (section name childs) c l =
      let line = b'[' ∷ name ++ codes "]" in
      process_childs-under childs (append c line) l
      ∙ ap (λ (t : List Config). l ++ t) (under-append c line (paths_below childs))
  process-under (property name values childs) c l =
      process_property name values childs c l (process_childs-under childs)

  process_childs-under :
      (ns : Nodes) (c : Config) (l : List Config)
      → process_childs ns c l ≡ l ++ under c (paths_below ns)
  process_childs-under end c l = ap (λ (t : List Config). l ++ t) (sym (under-nil c))
  process_childs-under (child n ns) c l =
      let here = under c (paths n) in
      let there = under c (paths_rest ns) in
      process_rest-under ns c (process n c l)
      ∙ (ap (λ (t : List Config). t ++ there) (process-under n c l)
          ∙ (append_assoc l here there
              ∙ ap (λ (t : List Config). l ++ t)
                  (sym (under-append_list c (paths n) (paths_rest ns)))))

  process_rest-under :
      (ns : Nodes) (c : Config) (l : List Config)
      → process_rest ns c l ≡ l ++ under c (paths_rest ns)
  process_rest-under end c l = sym (append-nil l)
  process_rest-under (child n ns) c l =
      let here = under c (paths n) in
      let there = under c (paths_rest ns) in
      process_rest-under ns c (process n c l)
      ∙ (ap (λ (t : List Config). t ++ there) (process-under n c l)
          ∙ (append_assoc l here there
              ∙ ap (λ (t : List Config). l ++ t)
                  (sym (under-append_list c (paths n) (paths_rest ns)))))

-- Processing a node adds, in order and behind what the list holds, one configuration for each path
-- of the tree, with the lines of the path behind those of the root.
pub process-paths :
    (n : Node) (c : Config) (config_list : List Config)
    → process n c config_list ≡ config_list ++ under c (paths n)
process-paths n c config_list = process-under n c config_list

-- the number of configurations: a property multiplies, siblings add
unfoldable mutual
  pub size : Node → ℕ
  size (section name childs) = size_below childs
  size (property name values childs) = length values * size_below childs

  pub size_below : Nodes → ℕ
  size_below end = 1
  size_below (child n ns) = size n + size_rest ns

  pub size_rest : Nodes → ℕ
  size_rest end = 0
  size_rest (child n ns) = size n + size_rest ns

length-flat_map :
    (g : Text → List (List Text)) (k : ℕ)
    → ((v : Text) → length (g v) ≡ k)
    → (vs : List Text) → length (flat_map g vs) ≡ length vs * k
unfolding flat_map
length-flat_map g k h [] = omega arith
length-flat_map g k h (v ∷ vs) =
    omega (arith, length-append (g v) (flat_map g vs), h v, length-flat_map g k h vs)

mutual
  unfolding paths size

  length-paths_of : (n : Node) → length (paths n) ≡ size n
  length-paths_of (section name childs) =
      length-map _ (paths_below childs) ∙ length-paths_below childs
  length-paths_of (property name values childs) =
      length-flat_map _ (size_below childs)
        (λ v. length-map _ (paths_below childs) ∙ length-paths_below childs) values

  length-paths_below : (ns : Nodes) → length (paths_below ns) ≡ size_below ns
  length-paths_below end = refl
  length-paths_below (child n ns) =
      omega
        (arith, length-append (paths n) (paths_rest ns), length-paths_of n, length-paths_rest ns)

  length-paths_rest : (ns : Nodes) → length (paths_rest ns) ≡ size_rest ns
  length-paths_rest end = refl
  length-paths_rest (child n ns) =
      omega
        (arith, length-append (paths n) (paths_rest ns), length-paths_of n, length-paths_rest ns)

-- A tree gives as many configurations as the product of the numbers of values along its branches,
-- summed over siblings.
pub length-process : (n : Node) (c : Config) → length (process n c []) ≡ size n
length-process n c = rw process-paths (length-map _ (paths n) ∙ length-paths_of n)
