-- ===== src/Imports/Tests.antt =====
-- The theorems on the classes of cdk8s/imports, for an object and props that are texts.
use learning_crossplane_e2e.Prelude.{String, none, some, All}
use learning_crossplane_e2e.Imports.Packages.{packages}
use learning_crossplane_e2e.Imports.Guards.{GuardsAll, packages-GuardsAll}

-- Where the id is nil.
packages-GuardsAll_example :
    All
      (GuardsAll {P = String} {X = String} (λ props. none) (some "my-app") none none "props")
      packages
packages-GuardsAll_example = packages-GuardsAll (λ props. none) (some "my-app") none none "props"
