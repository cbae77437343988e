-- ===== src/Typosquat/Popular.antt =====
-- The popular packages of crates/notebook/src/typosquat.rs, in its order.
use runt.Prelude.{String, List, [], ◌∷◌}

abbrev pub popular_packages : List String
popular_packages =
    "boto3" ∷ "botocore" ∷ "urllib3" ∷ "requests" ∷ "setuptools" ∷ "charset-normalizer" ∷ "certifi"
    ∷ "idna" ∷ "typing-extensions" ∷ "python-dateutil" ∷ "s3transfer" ∷ "packaging" ∷ "aiobotocore"
    ∷ "pyyaml" ∷ "numpy" ∷ "six" ∷ "cryptography" ∷ "pip" ∷ "jmespath" ∷ "s3fs" ∷ "fsspec" ∷ "cffi"
    ∷ "attrs" ∷ "pycparser" ∷ "wheel" ∷ "zipp" ∷ "importlib-metadata" ∷ "aiohttp" ∷ "pyasn1"
    ∷ "multidict" ∷ "pandas" ∷ "platformdirs" ∷ "yarl" ∷ "rsa" ∷ "pytz" ∷ "google-api-core"
    ∷ "async-timeout" ∷ "awscli" ∷ "protobuf" ∷ "googleapis-common-protos" ∷ "filelock" ∷ "wrapt"
    ∷ "markupsafe" ∷ "frozenlist" ∷ "colorama" ∷ "aiosignal" ∷ "click" ∷ "jinja2" ∷ "jsonschema"
    ∷ "tomli" ∷ "pyparsing" ∷ "pydantic" ∷ "grpcio" ∷ "pyarrow" ∷ "sqlalchemy" ∷ "tqdm" ∷ "docutils"
    ∷ "google-auth" ∷ "werkzeug" ∷ "pillow" ∷ "scipy" ∷ "decorator" ∷ "pluggy" ∷ "greenlet"
    ∷ "cachetools" ∷ "exceptiongroup" ∷ "tzdata" ∷ "pytest" ∷ "iniconfig" ∷ "flask" ∷ "pyjwt"
    ∷ "google-cloud-storage" ∷ "lxml" ∷ "pyopenssl" ∷ "psutil" ∷ "oauthlib" ∷ "soupsieve"
    ∷ "beautifulsoup4" ∷ "google-cloud-core" ∷ "requests-oauthlib" ∷ "httplib2" ∷ "pygments"
    ∷ "isodate" ∷ "openpyxl" ∷ "networkx" ∷ "et-xmlfile" ∷ "httpx" ∷ "sniffio" ∷ "anyio"
    ∷ "httpcore" ∷ "h11" ∷ "distlib" ∷ "virtualenv" ∷ "matplotlib" ∷ "scikit-learn" ∷ "joblib"
    ∷ "threadpoolctl" ∷ "pynacl" ∷ "bcrypt" ∷ "paramiko" ∷ "tensorflow" ∷ "torch" ∷ "keras"
    ∷ "opencv-python" ∷ "selenium" ∷ "scrapy" ∷ "django" ∷ "fastapi" ∷ "uvicorn" ∷ "gunicorn"
    ∷ "celery" ∷ "redis" ∷ "pymongo" ∷ "psycopg2" ∷ "mysqlclient" ∷ "elasticsearch" ∷ "boto"
    ∷ "aws-cdk-lib" ∷ "black" ∷ "flake8" ∷ "mypy" ∷ "isort" ∷ "pylint" ∷ "coverage" ∷ "nose"
    ∷ "mock" ∷ "faker" ∷ "factory-boy" ∷ "hypothesis" ∷ "httpretty" ∷ "responses" ∷ "moto"
    ∷ "ipython" ∷ "jupyter" ∷ "notebook" ∷ "jupyterlab" ∷ "ipykernel" ∷ "ipywidgets" ∷ "nbformat"
    ∷ "nbconvert" ∷ "traitlets" ∷ "rich" ∷ "typer" ∷ "pydantic-settings" ∷ "python-dotenv"
    ∷ "python-multipart" ∷ "starlette" ∷ "aiofiles" ∷ "orjson" ∷ "ujson" ∷ "msgpack" ∷ "cloudpickle"
    ∷ "dill" ∷ "joblib" ∷ "transformers" ∷ "tokenizers" ∷ "huggingface-hub" ∷ "accelerate"
    ∷ "safetensors" ∷ "datasets" ∷ "evaluate" ∷ "timm" ∷ "torchvision" ∷ "torchaudio" ∷ "lightning"
    ∷ "wandb" ∷ "mlflow" ∷ "ray" ∷ "dask" ∷ "xarray" ∷ "zarr" ∷ "numba" ∷ "cython" ∷ []
