-- ===== src/Route/Samples.antt =====
-- A trip with two tasks. Floats are whole hundredths here.
use ai_planed_map.Prelude.{
  ℕ, ◌+◌, ◌-◌, ◌*◌, ◌/◌, ◌^◌, true, false, none, some, [], ◌∷◌, ltb, nat_beq, ◌==◌, string_eq,
}
use ai_planed_map.Route.Types.{
  Python, TransportMode, OptimizationGoal, TravelStyle, Preferences, PlanningTask, HardConstraints,
  RouteEdge, CandidateNode,
}
use ai_planed_map.Route.Evaluation.{Problem}

abbrev pub hundredths : Python
hundredths = record {
  Float = ℕ;
  literal = λ n k. n * 100 / 10 ^ k;
  plus = λ a b. a + b;
  minus = λ a b. a - b;
  times = λ a b. a * b / 100;
  divided = λ a b. a * 100 / b;
  less = ltb;
  equal = nat_beq;
  truth = λ a. ltb 0 a;
  microseconds = λ a. a * 10_000;
  minutes = λ n. n * 100 / 60_000_000;
  contains = λ part text. part == text;
}

abbrev pub museum : PlanningTask hundredths
museum = record {
  description = "museum";
  service_duration_minutes = 60;
  min_service_duration_minutes = none;
  earliest_arrival = some 600_000_000;
  deadline = some 3_000_000_000;
  required = true;
  min_rating = some 400;
  max_cost_yuan = some 10_000;
  require_open = true;
  require_wheelchair_accessible = false;
  appointment_time = none;
}

abbrev pub dinner : PlanningTask hundredths
dinner = record museum {
  description = "dinner";
  earliest_arrival = none;
  deadline = none;
  min_rating = none;
}

abbrev pub limits : HardConstraints hundredths
limits = record {
  latest_return_time = none;
  max_walking_meters = some 500_000;
  max_total_duration_minutes = none;
  max_total_cost_yuan = none;
  must_return_to_origin = true;
  required_task_order = 0 ∷ 1 ∷ [];
  max_detour_meters = none;
  avoid_areas = [];
  must_pass_areas = [];
  allowed_districts = [];
  wheelchair_accessible = false;
  wheelchair_users = 0;
  transport_budget_yuan = none;
  dining_budget_yuan = none;
  ticket_budget_yuan = none;
}

abbrev pub tastes : Preferences hundredths
tastes = record {
  optimization_goal = OptimizationGoal.shortest_time;
  travel_style = TravelStyle.balanced;
  minimize_distance = false;
  minimize_walking = false;
  minimize_cost = false;
  prefer_high_rating = false;
  weights = record {
    travel_time = 100;
    walking_time = 60;
    distance = 15;
    low_rating = 35;
    uncertainty = 80;
    change = 50;
    monetary_cost = 40;
  };
}

abbrev pub edge : ℕ → RouteEdge hundredths
edge seconds = record {
  duration_seconds = seconds * 100;
  distance_meters = seconds * 100;
  confidence = 90;
}

abbrev pub problem : Problem hundredths
problem = record {
  departure = 0;
  tasks = museum ∷ dinner ∷ [];
  matrix =
      (edge 0 ∷ edge 300 ∷ edge 400 ∷ [])
      ∷ (edge 300 ∷ edge 0 ∷ edge 200 ∷ [])
      ∷ (edge 400 ∷ edge 200 ∷ edge 0 ∷ [])
      ∷ [];
  preferences = tastes;
  constraints = limits;
  mode = TransportMode.walking;
  safety_buffer_minutes = 10;
  previous_order = [];
  baseline_distance_meters = none;
}

abbrev pub place : ℕ → CandidateNode hundredths
place task_index = record {
  task_index = task_index;
  candidate_rank = 0;
  matrix_index = task_index + 1;
  rating = some 450;
  confidence = 80;
  estimated_cost_yuan = some 5_000;
  open_now = some true;
  wheelchair_accessible = none;
  district = none;
}
