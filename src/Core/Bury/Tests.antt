-- ===== src/Core/Bury/Tests.antt =====
-- Burying jobs of the sample memory.
use gostalkd.Prelude.{◌≡◌, refl, [], Yields, arith}
use gostalkd.Core.Links.{Links, list_insert}
use gostalkd.Core.Links.Insert.{list_insert-Ring}
use gostalkd.Core.Bury.{put_buried}
use gostalkd.Core.Bury.Lists.{Marked, put_buried-lost}
use gostalkd.Machine.{World}
use gostalkd.Machine.Sample.{sample_world, sample_jobs}

abbrev one_buried : Links
unfolding list_insert
one_buried = list_insert sample_jobs.links 9 2

-- The job at the address 2 is buried already.
abbrev world : World
unfolding one_buried
world = record sample_world { jobs = record sample_jobs { links = one_buried } }

put_buried-lost_example :
    Yields (λ out. Marked out.1 1 0 × (out.1.jobs.links ≡ world.jobs.links)) (put_buried 1 world)
unfolding world
put_buried-lost_example = put_buried-lost world 1 0 2 [] refl (
    list_insert-Ring sample_jobs.links 9 [] 2 (record { chain = (refl, refl); distinct = (tt, tt) })
      (record { no_next = refl; no_prev = refl }) (omega arith, tt))
