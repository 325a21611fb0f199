-- ===== src/Drivers/NodeCounts/Laws.antt =====
-- How many runs the commands make, and how they agree.
use implementing_5g_nr_u_lte.Common.{
  ℕ, suc, ◌+◌, ◌-◌, ◌*◌, ◌≡◌, refl, arith, List, length, length-range_from, Outcome, ok, raised,
  ◌>>=◌, try_each, range_from,
}
use implementing_5g_nr_u_lte.Output.{Cell}
use implementing_5g_nr_u_lte.Drivers.Runs.{Run, Progress}
use implementing_5g_nr_u_lte.Drivers.Runs.Counting.{NeverRaises, Done, loops-Done}
use implementing_5g_nr_u_lte.Drivers.NodeCounts.{
  Options, single_run, changing_number_nodes, client_run, client_runs, run_of,
}

>>=-ok : {A : Type 0} (m : Outcome A) → (m >>= ok) ≡ m
>>=-ok (ok a) = refl
>>=-ok (raised e) = refl

module _ {Float : Type 0} (simulate : Run → Outcome (List (Cell Float))) where
  -- For a range of one number of nodes changingNodesNumber.py does what singleRun.py does.
  pub changing_number_nodes_single :
      (o : Options) (n : ℕ) (p : Progress Float)
      → changing_number_nodes simulate o n n p ≡ single_run simulate o n n p
  unfolding changing_number_nodes single_run try_each range_from
  changing_number_nodes_single o n p = let one : n + 1 - n ≡ 1 = omega arith in rw one (>>=-ok _)

  -- A range is done by doing one number and then the numbers after it.
  changing_number_nodes_step :
      (o : Options) (first last : ℕ) (p : Progress Float)
      → changing_number_nodes simulate o first (first + suc last) p ≡ (
          single_run simulate o first first p
          >>= changing_number_nodes simulate o (first + 1) (first + suc last))
  unfolding changing_number_nodes single_run try_each range_from
  changing_number_nodes_step o first last p =
      let more : first + suc last + 1 - first ≡ suc (suc last) = omega arith in
      let less : first + suc last + 1 - (first + 1) ≡ suc last = omega arith in rw (more, less) refl

module _ {Float : Type 0} (simulate : Run → Outcome (List (Cell Float)))
    (fine : NeverRaises simulate) (p : Progress Float) where
  -- If no simulation raises, changingNodesNumber.py makes `runs` runs for each number of nodes, and
  -- each leaves a row at the default path.
  changing_number_nodes-rows :
      (o : Options) (first last : ℕ)
      → Done simulate fine p
          (changing_number_nodes simulate o first last p)
          ((last + 1 - first) * o.runs)
  unfolding changing_number_nodes
  changing_number_nodes-rows o first last =
      let numbers = length-range_from first (last + 1 - first) in
      let runs = length-range_from 0 o.runs in
      rw (numbers, runs) at
        (loops-Done simulate fine p (range_from first (last + 1 - first)) (range_from 0 o.runs)
          (λ n i. run_of o n n i))

  -- If no simulation raises, client_coex.py makes eight runs for each seed, and each leaves a row
  -- at the default path.
  client_runs-rows :
      (seeds : List ℕ) → Done simulate fine p (client_runs simulate seeds p) (length seeds * 8)
  unfolding client_runs
  client_runs-rows seeds =
      let eight = length-range_from 1 8 in
      rw eight at (loops-Done simulate fine p seeds (range_from 1 8) client_run)
