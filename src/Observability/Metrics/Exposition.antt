-- ===== src/Observability/Metrics/Exposition.antt =====
-- WritePrometheus of internal/observability/metrics.go and the order of a map.
use factory_demo.Base.{List, ◌≡◌, ◌∙◌, sym, refl}
use factory_demo.Text.{Text}
use factory_demo.Text.Sorting.{sort, IsIteration}
use factory_demo.Text.Sorting.Laws.{count-sort, sort-IsSorted, sorted_unique}
use factory_demo.Observability.Metrics.{Float, Metrics, write_prometheus, keys}

-- Sorting forgets the order in which the keys of a map come.
pub sort_iteration :
    (order order' : List Text → List Text) (ts : List Text)
    → IsIteration order
    → IsIteration order'
    → sort (order ts) ≡ sort (order' ts)
sort_iteration order order' ts h h' =
    sorted_unique (sort (order ts)) (sort (order' ts)) (sort-IsSorted (order ts))
      (sort-IsSorted (order' ts))
      (λ s. count-sort s (order ts) ∙ h ts s ∙ sym (h' ts s) ∙ sym (count-sort s (order' ts)))

-- The exposition is the same in whatever order the map of counters is iterated, as long as the
-- iteration yields each key just as often as the map holds it.
pub write_prometheus_order :
    (float : Float) (m : Metrics float) (order order' : List Text → List Text)
    → IsIteration order
    → IsIteration order'
    → write_prometheus float order m ≡ write_prometheus float order' m
unfolding write_prometheus
write_prometheus_order float m order order' h h' =
    rw (sort_iteration order order' (keys m.requests) h h') refl
